-- ===== src/Oauth/UserTokenPolicy/Tests.antt =====
-- User token policies at concrete rows.
-- About src/oauth/user-token-policy.ts.
use keyforge.Prelude.{
  String, ◌≡◌, refl, ◌↔◌, inr, true, false, Option, none, some, List, [], ◌∷◌, if◌then◌else◌,
  length, ◌==◌, IsMember, string_eq, option_eq, nat_eq, codes,
}
use keyforge.Env.{Env}
use keyforge.Oauth.PermissionRules.{
  Condition, single, application, scope, equals, allow, EffectiveRule, resolve_permission_rules,
  resolve_matching, decide, least_priority, applies, permission_rule_matches, condition_uses_scope,
}
use keyforge.Oauth.UserTokenPolicy.{
  RuleRow, RuleText, UserPermissionRules, get_user_permission_rules, load_rows, add_rule,
  checked_rule, AccessInput, access_allowed, access_denied, scope_not_allowed, judge_policy,
  check_scopes, scope_refusal, evaluate_user_token_access,
}
use keyforge.Oauth.UserTokenPolicy.Scopes.{
  IsPermitted, evaluate_user_token_access_iff, evaluate_user_token_access_narrow,
}

abbrev production : Env
production = record {
  environment = "production";
  yolo_mode = some "true";
  issuer = "https://id.example";
}

abbrev is_app : Condition
is_app = single application equals "app"

abbrev reads : Condition
reads = single scope equals "read"

abbrev sample_rule : String → Condition → EffectiveRule
sample_rule id condition = record {
  id = id;
  effect = allow;
  condition = condition;
  group_id = "grp_1";
  group_name = "readers";
  priority = 10;
}

abbrev policy : UserPermissionRules
policy = record {
  valid = true;
  admin_member = false;
  rules = sample_rule "a" is_app ∷ sample_rule "b" reads ∷ [];
}

abbrev asks : List String → AccessInput
asks scopes = record { client_id = "app"; resource_uri = "https://api.example"; scopes = scopes }

abbrev parse : String → Option Condition
parse json = if json == "app" then some is_app else if json == "read" then some reads else none

abbrev text : RuleText
text = record { parse_condition = parse; utf16_length = λ s. length (codes s) }

abbrev row : String → String → RuleRow
row id json = record {
  group_id = "grp_1";
  group_name = "readers";
  priority = 10;
  rule_id = some id;
  effect = some allow;
  condition_json = some json;
}

a_row_without_a_rule :
    get_user_permission_rules text (
      record {
        group_id = "grp_2";
        group_name = "admins";
        priority = 1;
        rule_id = none;
        effect = none;
        condition_json = none;
      }
      ∷ [])
    ≡ record { valid = true; admin_member = true; rules = [] }
unfolding get_user_permission_rules load_rows add_rule
a_row_without_a_rule = refl

a_bad_row :
    get_user_permission_rules text (row "b" "{" ∷ row "a" "app" ∷ [])
    ≡ record { valid = false; admin_member = false; rules = [] }
unfolding get_user_permission_rules load_rows add_rule checked_rule
a_bad_row = refl

reads_allowed :
    evaluate_user_token_access production policy (asks ("openid" ∷ "read" ∷ [])) ≡ access_allowed
unfolding evaluate_user_token_access judge_policy check_scopes scope_refusal
    resolve_permission_rules resolve_matching decide least_priority applies permission_rule_matches
    condition_uses_scope
reads_allowed = refl

writes_denied :
    evaluate_user_token_access production policy (asks ("read" ∷ "write" ∷ []))
    ≡ access_denied scope_not_allowed
unfolding evaluate_user_token_access judge_policy check_scopes scope_refusal
    resolve_permission_rules resolve_matching decide least_priority applies permission_rule_matches
    condition_uses_scope
writes_denied = refl

evaluate_user_token_access_iff_example :
    (evaluate_user_token_access production policy (asks ("openid" ∷ "read" ∷ [])) ≡ access_allowed)
    ↔ IsPermitted policy (asks ("openid" ∷ "read" ∷ []))
evaluate_user_token_access_iff_example =
    evaluate_user_token_access_iff production policy (asks ("openid" ∷ "read" ∷ [])) refl

just_read : (s : String) → IsMember s ("read" ∷ []) → IsMember s ("openid" ∷ "read" ∷ [])
just_read s m = inr m

evaluate_user_token_access_narrow_example :
    evaluate_user_token_access production policy (asks ("read" ∷ [])) ≡ access_allowed
evaluate_user_token_access_narrow_example =
    evaluate_user_token_access_narrow production policy (asks ("openid" ∷ "read" ∷ []))
      ("read" ∷ []) just_read reads_allowed
