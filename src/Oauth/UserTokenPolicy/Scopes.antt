-- ===== src/Oauth/UserTokenPolicy/Scopes.antt =====
-- Which scopes a policy permits.
-- About src/oauth/user-token-policy.ts.
use mathlib.Core.Path.{subst}
use keyforge.Prelude.{
  String, ◌≡◌, refl, ◌↔◌, ◌⊎◌, inl, inr, Bool, true, false, none, List, [], ◌∷◌, arith, Bool-cases,
  Option-cases, any, All, IsMember, unique, unique-IsMember, IsMember-unique, string_eq, option_eq,
  nat_eq,
}
use keyforge.Env.{Env, yolo_allow}
use keyforge.Oauth.Scopes.{is_resource_authorized_scope}
use keyforge.Oauth.PermissionRules.{EffectiveRule, base, scoped, resolve_permission_rules}
use keyforge.Oauth.PermissionRules.Stages.{resolve_base_scope}
use keyforge.Oauth.UserTokenPolicy.{
  UserPermissionRules, AccessInput, access_allowed, is_admin_scope, first_or_empty, context_for,
  scope_refusal, check_scopes, is_allowed, judge_policy, evaluate_user_token_access,
}

-- What the policy has to grant one scope.
abbrev pub IsPermittedScope : UserPermissionRules → AccessInput → String → Type 0
IsPermittedScope policy input scope =
    (is_admin_scope scope ≡ false ⊎ policy.admin_member ≡ true)
    × ((is_resource_authorized_scope scope ≡ true)
        ⊎ (is_allowed (resolve_permission_rules policy.rules (context_for input scope) scoped)
            ≡ true))

-- The policy could be read, its base rules allow the application and the resource, and it permits
-- every scope that is asked for.
pub record IsPermitted (policy : UserPermissionRules) (input : AccessInput) : Type 0 where
  pub readable : policy.valid ≡ true
  pub base_allowed :
      is_allowed (resolve_permission_rules policy.rules (context_for input "") base) ≡ true
  pub permitted :
      (scope : String) → IsMember scope input.scopes → IsPermittedScope policy input scope

scope_permitted :
    (policy : UserPermissionRules) (input : AccessInput) (scope : String)
    → (scope_refusal policy.rules input scope ≡ none) ↔ (
        (is_resource_authorized_scope scope ≡ true)
        ⊎ (is_allowed (resolve_permission_rules policy.rules (context_for input scope) scoped)
            ≡ true))
unfolding scope_refusal
scope_permitted policy input scope = ground arith

check_scopes_iff :
    (rules : List EffectiveRule) (input : AccessInput) (scopes : List String)
    → (check_scopes rules input scopes ≡ access_allowed)
      ↔ All (λ scope. scope_refusal rules input scope ≡ none) scopes
unfolding check_scopes
check_scopes_iff rules input [] = ground arith
check_scopes_iff rules input (x ∷ xs) =
    ground (arith, check_scopes_iff rules input xs, Option-cases (scope_refusal rules input x))

module _ {A : Type 0} (P : A → Type 0) where
  All-of_mem : (xs : List A) → ((a : A) → IsMember a xs → P a) → All P xs
  All-of_mem [] h = tt
  All-of_mem (x ∷ xs) h = (h x (inl refl), All-of_mem xs (λ a m. h a (inr m)))

  mem-of_All : (xs : List A) → All P xs → (a : A) → IsMember a xs → P a
  mem-of_All [] h a m = absurd m
  mem-of_All (x ∷ xs) h a (inl e) = subst P e h.0
  mem-of_All (x ∷ xs) h a (inr m) = mem-of_All xs h.1 a m

any-false :
    {A : Type 0} (p : A → Bool) (xs : List A) → (any p xs ≡ false) ↔ All (λ a. p a ≡ false) xs
any-false p [] = ground arith
any-false p (x ∷ xs) = ground (arith, any-false p xs)

base_first :
    (policy : UserPermissionRules) (input : AccessInput) (s : String)
    → resolve_permission_rules policy.rules (context_for input s) base
      ≡ resolve_permission_rules policy.rules (context_for input "") base
base_first policy input s = resolve_base_scope policy.rules (context_for input s) ""

judge_iff :
    (policy : UserPermissionRules) (input : AccessInput) (scopes : List String)
    → (judge_policy policy input scopes ≡ access_allowed) ↔ (
        (policy.valid ≡ true)
        × (is_allowed (resolve_permission_rules policy.rules (context_for input "") base) ≡ true)
        × ((any is_admin_scope scopes ≡ false) ⊎ (policy.admin_member ≡ true))
        × All (λ scope. scope_refusal policy.rules input scope ≡ none) scopes)
unfolding judge_policy
judge_iff policy input scopes = ground (
  arith,
  base_first policy input (first_or_empty scopes),
  check_scopes_iff policy.rules input scopes,
)

admin_scopes_iff :
    (admin : Bool) (scopes : List String)
    → ((any is_admin_scope scopes ≡ false) ⊎ (admin ≡ true))
      ↔ All (λ scope. (is_admin_scope scope ≡ false) ⊎ (admin ≡ true)) scopes
admin_scopes_iff admin [] = ground arith
admin_scopes_iff admin (x ∷ xs) = ground (arith, admin_scopes_iff admin xs)

-- Without the mode that skips validation, access is allowed exactly if the policy permits the input.
-- The order of the scopes and repeated scopes do not matter.
pub evaluate_user_token_access_iff :
    (env : Env) (policy : UserPermissionRules) (input : AccessInput)
    → yolo_allow env ≡ false
    → (evaluate_user_token_access env policy input ≡ access_allowed) ↔ IsPermitted policy input
unfolding evaluate_user_token_access
evaluate_user_token_access_iff env policy input off = (to, from)
  where
    asked : List String
    asked = unique input.scopes

    to : evaluate_user_token_access env policy input ≡ access_allowed → IsPermitted policy input
    to h =
        let (readable, based, admin, all_scopes) =
          (judge_iff policy input asked).0 (rw (off, evaluate_user_token_access) at h) in
        record {
          readable = readable;
          base_allowed = based;
          permitted = λ scope m. (
            mem-of_All _ asked ((admin_scopes_iff policy.admin_member asked).0 admin) scope
                (unique-IsMember input.scopes scope m),
            (scope_permitted policy input scope).0
                (mem-of_All _ asked all_scopes scope (unique-IsMember input.scopes scope m)),
          );
        }

    from : IsPermitted policy input → evaluate_user_token_access env policy input ≡ access_allowed
    from p = rw off (
        (judge_iff policy input asked).1 (
          p.readable,
          p.base_allowed,
          (admin_scopes_iff policy.admin_member asked).1 (
              All-of_mem _ asked
                (λ scope m. (p.permitted scope (IsMember-unique input.scopes scope m)).0)),
          All-of_mem _ asked (λ scope m.
              (scope_permitted policy input scope).1
                (p.permitted scope (IsMember-unique input.scopes scope m)).1),
        ))

yolo_allows :
    (env : Env) (policy : UserPermissionRules) (input : AccessInput)
    → yolo_allow env ≡ true
    → evaluate_user_token_access env policy input ≡ access_allowed
unfolding evaluate_user_token_access
yolo_allows env policy input on = rw on

-- Access that is allowed for some scopes is allowed for any choice of them, so narrowing a grant
-- never loses it.
pub evaluate_user_token_access_narrow :
    (env : Env) (policy : UserPermissionRules) (input : AccessInput) (scopes : List String)
    → ((scope : String) → IsMember scope scopes → IsMember scope input.scopes)
    → evaluate_user_token_access env policy input ≡ access_allowed
    → evaluate_user_token_access env policy (record input { scopes = scopes }) ≡ access_allowed
evaluate_user_token_access_narrow env policy input scopes sub h =
    elim (Bool-cases (yolo_allow env)) [
      | inl on ↦ yolo_allows env policy (record input { scopes = scopes }) on
      | inr off ↦
          (let p = (evaluate_user_token_access_iff env policy input off).0 h in
            (evaluate_user_token_access_iff env policy (record input { scopes = scopes }) off).1
              (record {
                readable = p.readable;
                base_allowed = p.base_allowed;
                permitted = λ scope m. p.permitted scope (sub scope m);
              }))
    ]
