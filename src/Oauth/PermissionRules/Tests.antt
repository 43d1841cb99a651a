-- ===== src/Oauth/PermissionRules/Tests.antt =====
-- Permission rules at concrete rules.
-- About src/oauth/permission-rules.ts.
use keyforge.Prelude.{
  ℕ, ◌≤◌, String, ◌≡◌, refl, ◌↔◌, false, none, some, List, [], ◌∷◌, arith, length, All, IsMember,
  string_eq, option_eq, nat_eq, codes,
}
use keyforge.Oauth.PermissionRules.{
  Condition, single, set, group, nil, cons, application, scope, equals, in_set, and, Effect, allow,
  deny, RuleInput, EffectiveRule, Context, base, scoped, allowed, denied, no_match, valid, issue,
  standard_scope, validate_permission_group_rules, rules_parse, inspect_rules, inspect_condition,
  condition_parses, rule_parses, id_parses, resolve_permission_rules, resolve_matching, decide,
  least_priority, applies, permission_rule_matches, condition_uses_scope,
  max_permission_group_rules, given_ids,
}
use keyforge.Oauth.Scopes.{has_duplicate}
use keyforge.Oauth.PermissionRules.Inspect.{IsBounded, validate_permission_group_rules-IsBounded}
use keyforge.Oauth.PermissionRules.Order.{resolve_permission_rules_order}
use keyforge.Oauth.PermissionRules.Resolve.{IsDecision, Counts, resolve_permission_rules-IsDecision}

abbrev app_reads : Condition
app_reads =
    group and
      (cons (single application equals "app") (cons (set scope in_set ("read" ∷ "write" ∷ [])) nil))

abbrev sample_rule : String → Effect → ℕ → EffectiveRule
sample_rule id effect priority = record {
  id = id;
  effect = effect;
  condition = app_reads;
  group_id = "grp_1";
  group_name = "readers";
  priority = priority;
}

abbrev sample_rules : List EffectiveRule
sample_rules = sample_rule "a" deny 20 ∷ sample_rule "b" allow 10 ∷ []

abbrev swapped : List EffectiveRule
swapped = sample_rule "b" allow 10 ∷ sample_rule "a" deny 20 ∷ []

abbrev reading : Context
reading = record { application = "app"; api = "https://api.example"; scope = "read" }

reads_allowed : resolve_permission_rules sample_rules reading scoped ≡ allowed 10
unfolding resolve_permission_rules resolve_matching decide least_priority applies
    permission_rule_matches condition_uses_scope
reads_allowed = refl

equal_priority_denied :
    resolve_permission_rules
      (sample_rule "a" deny 10 ∷ sample_rule "b" allow 10 ∷ [])
      reading
      scoped
    ≡ denied 10
unfolding resolve_permission_rules resolve_matching decide least_priority applies
    permission_rule_matches condition_uses_scope
equal_priority_denied = refl

base_unmatched : resolve_permission_rules sample_rules reading base ≡ no_match
unfolding resolve_permission_rules resolve_matching decide least_priority applies
    permission_rule_matches condition_uses_scope
base_unmatched = refl

abbrev units : String → ℕ
units s = length (codes s)

abbrev given : List RuleInput
given = record { id = some "r1"; effect = allow; condition = app_reads } ∷ []

given_valid : validate_permission_group_rules units given ≡ valid given
unfolding validate_permission_group_rules rules_parse rule_parses id_parses condition_parses
    inspect_rules inspect_condition
given_valid = refl

openid_refused :
    validate_permission_group_rules units
      (record { id = none; effect = allow; condition = single scope equals "openid" } ∷ [])
    ≡ issue standard_scope
unfolding validate_permission_group_rules rules_parse rule_parses id_parses condition_parses
    inspect_rules inspect_condition
openid_refused = refl

validate_permission_group_rules-IsBounded_example :
    (given ≡ given)
    × (length given ≤ max_permission_group_rules)
    × (has_duplicate (given_ids given) ≡ false)
    × All IsBounded given
validate_permission_group_rules-IsBounded_example =
    validate_permission_group_rules-IsBounded units given given given_valid

resolve_permission_rules-IsDecision_example :
    IsDecision
      (Counts sample_rules reading scoped)
      (resolve_permission_rules sample_rules reading scoped)
resolve_permission_rules-IsDecision_example =
    resolve_permission_rules-IsDecision sample_rules reading scoped

same_rules : (rule : EffectiveRule) → IsMember rule sample_rules ↔ IsMember rule swapped
same_rules rule = ground arith

resolve_permission_rules_order_example :
    resolve_permission_rules sample_rules reading scoped
    ≡ resolve_permission_rules swapped reading scoped
resolve_permission_rules_order_example =
    resolve_permission_rules_order sample_rules swapped reading scoped same_rules
