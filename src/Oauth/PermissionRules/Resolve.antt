-- ===== src/Oauth/PermissionRules/Resolve.antt =====
-- What the decision means: the least priority among the rules that apply, and whether one of the
-- rules at that priority denies.
-- About src/oauth/permission-rules.ts.
use mathlib.Core.Path.{subst}
use keyforge.Prelude.{
  ℕ, ◌≤◌, min, ◌≡◌, refl, sym, ◌⊎◌, inl, inr, true, false, List, [], ◌∷◌, arith, leb, eqb,
  Bool-cases, any, filter, IsMember, filter-IsMember, IsMember-filter, string_eq, option_eq, nat_eq,
}
use keyforge.Oauth.PermissionRules.{
  EffectiveRule, Context, Stage, Decision, allowed, denied, no_match, Effect, allow, deny, applies,
  is_deny, least_priority, decide, resolve_matching, resolve_permission_rules,
}

-- The decision that is right for the rules of which `Applies` holds.
abbrev pub IsDecision : (EffectiveRule → Type 0) → Decision → Type 0
IsDecision Applies no_match = (rule : EffectiveRule) → ¬ Applies rule
IsDecision Applies (allowed priority) =
    ((rule : EffectiveRule) × Applies rule × (rule.priority ≡ priority))
    × ((rule : EffectiveRule) → Applies rule → priority ≤ rule.priority)
    × ((rule : EffectiveRule) → Applies rule → rule.priority ≡ priority → rule.effect ≡ allow)
IsDecision Applies (denied priority) =
    ((rule : EffectiveRule) × Applies rule × (rule.priority ≡ priority) × (rule.effect ≡ deny))
    × ((rule : EffectiveRule) → Applies rule → priority ≤ rule.priority)

least-le : (p : ℕ) (rules : List EffectiveRule) → least_priority p rules ≤ p
unfolding least_priority
least-le p [] = omega arith
least-le p (rule ∷ rules) = omega (arith, least-le (min p rule.priority) rules)

least-le_of_mem :
    (p : ℕ) (rules : List EffectiveRule) (r : EffectiveRule)
    → IsMember r rules
    → least_priority p rules ≤ r.priority
unfolding least_priority
least-le_of_mem p [] r m = absurd m
least-le_of_mem p (rule ∷ rules) r (inl e) =
    subst (λ x. least_priority (min p rule.priority) rules ≤ x.priority) e
      (omega (arith, least-le (min p rule.priority) rules))
least-le_of_mem p (rule ∷ rules) r (inr m) = least-le_of_mem (min p rule.priority) rules r m

least_attained :
    (p : ℕ) (rules : List EffectiveRule)
    → (least_priority p rules ≡ p)
      ⊎ ((r : EffectiveRule) × IsMember r rules × (r.priority ≡ least_priority p rules))
unfolding least_priority
least_attained p [] = inl refl
least_attained p (rule ∷ rules) = elim (least_attained (min p rule.priority) rules) [
  | inr (r, m, e) ↦ inr (r, inr m, e)
  | inl e ↦ elim (Bool-cases (leb p rule.priority)) [
    | inl below ↦ inl (ground (arith, e))
    | inr above ↦ inr (rule, inl refl, ground (arith, e))
  ]
]

is_deny_of : (e : Effect) → is_deny e ≡ true → e ≡ deny
is_deny_of allow h = cc
is_deny_of deny h = refl

not_deny : (e : Effect) → is_deny e ≡ false → e ≡ allow
not_deny allow h = refl
not_deny deny h = cc

any_deny :
    (rules : List EffectiveRule)
    → any (λ rule. is_deny rule.effect) rules ≡ true
    → (r : EffectiveRule) × IsMember r rules × (r.effect ≡ deny)
any_deny [] h = cc
any_deny (rule ∷ rules) h = elim (Bool-cases (is_deny rule.effect)) [
  | inl d ↦ (rule, inl refl, is_deny_of rule.effect d)
  | inr n ↦ (let (r, m, d) = any_deny rules (rw n at h) in (r, inr m, d))
]

no_deny :
    (rules : List EffectiveRule)
    → any (λ rule. is_deny rule.effect) rules ≡ false
    → (r : EffectiveRule) → IsMember r rules
    → r.effect ≡ allow
no_deny [] h r m = absurd m
no_deny (rule ∷ rules) h r (inl e) =
    subst (λ x. x.effect ≡ allow) e (not_deny rule.effect (ground arith))
no_deny (rule ∷ rules) h r (inr m) = no_deny rules (ground arith) r m

decide-IsDecision :
    (p : ℕ) (rules : List EffectiveRule)
    → ((r : EffectiveRule) × IsMember r rules × (r.priority ≡ p))
    → ((r : EffectiveRule) → IsMember r rules → p ≤ r.priority)
    → IsDecision (λ r. IsMember r rules) (decide p rules)
unfolding decide
decide-IsDecision p rules attained least =
    elim (Bool-cases (any (λ r. is_deny r.effect) (filter (λ r. eqb r.priority p) rules))) [
      | inl d ↦
          (let (r, m, e) = any_deny _ d in
            let (m', at) = filter-IsMember (λ r. eqb r.priority p) rules m in
            rw d ((r, m', ground (arith, at), e), least))
      | inr n ↦ rw n (
        attained,
        least,
        λ r m e.
            no_deny _ n r (IsMember-filter (λ r. eqb r.priority p) rules m (ground (arith, e))),
      )
    ]

resolve_matching-IsDecision :
    (rules : List EffectiveRule) → IsDecision (λ r. IsMember r rules) (resolve_matching rules)
unfolding resolve_matching
resolve_matching-IsDecision [] = λ r m. m
resolve_matching-IsDecision (rule ∷ rules) =
    decide-IsDecision (least_priority rule.priority rules) (rule ∷ rules)
      (first (least_attained rule.priority rules)) least
  where
    first :
        (least_priority rule.priority rules ≡ rule.priority)
          ⊎ ((r : EffectiveRule) × IsMember r rules
              × (r.priority ≡ least_priority rule.priority rules))
        → (r : EffectiveRule) × IsMember r (rule ∷ rules)
          × (r.priority ≡ least_priority rule.priority rules)
    first (inl e) = (rule, inl refl, sym e)
    first (inr (r, m, e)) = (r, inr m, e)

    least :
        (r : EffectiveRule)
        → IsMember r (rule ∷ rules)
        → least_priority rule.priority rules ≤ r.priority
    least r (inl e) =
        subst (λ x. least_priority rule.priority rules ≤ x.priority) e
          (least-le rule.priority rules)
    least r (inr m) = least-le_of_mem rule.priority rules r m

-- A rule counts if it is in the list, belongs to the stage and matches.
abbrev pub Counts : List EffectiveRule → Context → Stage → EffectiveRule → Type 0
Counts rules context stage rule = IsMember rule rules × (applies context stage rule ≡ true)

pub IsDecision-iff :
    (P Q : EffectiveRule → Type 0) (d : Decision)
    → ((r : EffectiveRule) → P r → Q r)
    → ((r : EffectiveRule) → Q r → P r)
    → IsDecision P d
    → IsDecision Q d
IsDecision-iff P Q no_match to from h = λ r q. h r (from r q)
IsDecision-iff P Q (allowed p) to from ((r, a, e), least, only) =
    ((r, to r a, e), (λ x q. least x (from x q)), λ x q. only x (from x q))
IsDecision-iff P Q (denied p) to from ((r, a, e, d), least) =
    ((r, to r a, e, d), λ x q. least x (from x q))

-- The decision follows from the rules that count. It is `no_match` if there are none; otherwise it
-- names the least of their priorities, and it is `denied` if one of them at that priority denies,
-- and `allowed` if all of them at that priority allow.
pub resolve_permission_rules-IsDecision :
    (rules : List EffectiveRule) (context : Context) (stage : Stage)
    → IsDecision (Counts rules context stage) (resolve_permission_rules rules context stage)
unfolding resolve_permission_rules
resolve_permission_rules-IsDecision rules context stage =
    IsDecision-iff _ (Counts rules context stage) _
      (λ r m. filter-IsMember (applies context stage) rules m)
      (λ r c. IsMember-filter (applies context stage) rules c.0 c.1)
      (resolve_matching-IsDecision (filter (applies context stage) rules))
