-- ===== src/Oauth/UserTokenPolicy.antt =====
-- src/oauth/user-token-policy.ts, and `getUserPermissionRules` of
-- src/db/queries/permission-group-rules.ts over the rows that its query returns.
pub mod Scopes
pub mod Tests
use keyforge.Prelude.{
  ℕ, ◌+◌, String, Bool, true, false, not, ◌&&◌, ◌||◌, Option, none, some, List, [], ◌∷◌, ◌++◌, map,
  if◌then◌else◌, any, includes, ◌==◌, unique, string_eq, option_eq, nat_eq,
}
use mathlib.Core.Option
use keyforge.Env.{Env, yolo_allow}
use keyforge.Oauth.Scopes.{is_resource_authorized_scope}
use keyforge.Oauth.PermissionRules.{
  Condition, Effect, EffectiveRule, Context, base, scoped, Decision, allowed, denied, no_match,
  Validation, valid, issue, validate_permission_group_rules, resolve_permission_rules,
}

-- A row of the query's left join.
pub record RuleRow : Type 0 where
  pub group_id : String
  pub group_name : String
  pub priority : ℕ
  pub rule_id : Option String
  pub effect : Option Effect
  pub condition_json : Option String

-- What the platform gives: `JSON.parse` with the shape of a condition, and the length of a text.
pub record RuleText : Type 0 where
  pub parse_condition : String → Option Condition
  pub utf16_length : String → ℕ

pub record UserPermissionRules : Type 0 where
  pub valid : Bool
  pub admin_member : Bool
  pub rules : List EffectiveRule

abbrev accepts : Validation → Bool
accepts (valid rules) = true
accepts (issue i) = false

-- One row whose three columns are set: `none` if its rule is invalid.
checked_rule : RuleText → RuleRow → String → Effect → Option Condition → Option EffectiveRule
checked_rule text row rule_id effect none = none
checked_rule text row rule_id effect (some condition) =
    if accepts (
      validate_permission_group_rules text.utf16_length
        (record { id = none; effect = effect; condition = condition } ∷ []))
    then some (record {
      id = rule_id;
      effect = effect;
      condition = condition;
      group_id = row.group_id;
      group_name = row.group_name;
      priority = row.priority;
    })
    else none

-- A row without a rule adds none.
add_rule :
    RuleText
    → RuleRow
    → Option String
    → Option Effect
    → Option String
    → List EffectiveRule
    → Option (List EffectiveRule)
unfolding checked_rule
add_rule text row (some rule_id) (some effect) (some json) rules =
    Option.map (λ rule. rules ++ rule ∷ [])
      (checked_rule text row rule_id effect (text.parse_condition json))
add_rule text row _ _ _ rules = some rules

abbrev invalid_policy_of : Bool → UserPermissionRules
invalid_policy_of admin = record { valid = false; admin_member = admin; rules = [] }

abbrev or_invalid :
    Bool
    → (List EffectiveRule → UserPermissionRules)
    → Option (List EffectiveRule)
    → UserPermissionRules
or_invalid admin go none = invalid_policy_of admin
or_invalid admin go (some rules) = go rules

-- The loop over the rows, from the rules and the membership found so far.
load_rows : RuleText → List RuleRow → (admin : Bool) → List EffectiveRule → UserPermissionRules
load_rows text [] admin rules = record { valid = true; admin_member = admin; rules = rules }
load_rows text (row ∷ rows) admin rules =
    let admin' = admin || row.group_name == "admins" in
    or_invalid admin' (load_rows text rows admin')
      (add_rule text row row.rule_id row.effect row.condition_json rules)

pub get_user_permission_rules : RuleText → List RuleRow → UserPermissionRules
unfolding load_rows add_rule
get_user_permission_rules text rows = load_rows text rows false []

pub data Reason : Type 0 where
  application_resource admin_scope scope_denied scope_not_allowed invalid_policy : Reason

pub data AccessDecision : Type 0 where
  access_allowed : AccessDecision
  access_denied : Reason → AccessDecision

pub record AccessInput : Type 0 where
  pub client_id : String
  pub resource_uri : String
  pub scopes : List String

abbrev pub is_admin_scope : String → Bool
is_admin_scope scope = includes ("admin.read" ∷ "admin.write" ∷ []) scope

abbrev pub first_or_empty : List String → String
first_or_empty [] = ""
first_or_empty (x ∷ xs) = x

abbrev pub context_for : AccessInput → String → Context
context_for input scope = record {
  application = input.client_id;
  api = input.resource_uri;
  scope = scope;
}

abbrev refusal : Decision → Option Reason
refusal (allowed priority) = none
refusal (denied priority) = some scope_denied
refusal no_match = some scope_not_allowed

-- What the loop makes of one scope: `none` if it goes on.
unfoldable pub scope_refusal : List EffectiveRule → AccessInput → String → Option Reason
scope_refusal rules input scope =
    if is_resource_authorized_scope scope
    then none
    else refusal (resolve_permission_rules rules (context_for input scope) scoped)

abbrev deny_or : Option Reason → AccessDecision → AccessDecision
deny_or none d = d
deny_or (some reason) d = access_denied reason

unfoldable pub check_scopes : List EffectiveRule → AccessInput → List String → AccessDecision
check_scopes rules input [] = access_allowed
check_scopes rules input (scope ∷ scopes) =
    deny_or (scope_refusal rules input scope) (check_scopes rules input scopes)

abbrev is_allowed : Decision → Bool
is_allowed (allowed priority) = true
is_allowed (denied priority) = false
is_allowed no_match = false

-- The checks on a loaded policy.
unfoldable pub judge_policy :
    UserPermissionRules → AccessInput → (unique_scopes : List String) → AccessDecision
judge_policy policy input unique_scopes =
    if not policy.valid
    then access_denied invalid_policy
    else if not (
        is_allowed (
          resolve_permission_rules policy.rules (context_for input (first_or_empty unique_scopes))
            base))
    then access_denied application_resource
    else if any is_admin_scope unique_scopes && not policy.admin_member
    then access_denied admin_scope
    else check_scopes policy.rules input unique_scopes

unfoldable pub evaluate_user_token_access : Env → UserPermissionRules → AccessInput → AccessDecision
unfolding judge_policy
evaluate_user_token_access env policy input =
    if yolo_allow env then access_allowed else judge_policy policy input (unique input.scopes)
