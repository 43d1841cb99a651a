-- ===== src/Oauth/PermissionRules/Stages.antt =====
-- Conditions that name no scope, and the base stage.
-- About src/oauth/permission-rules.ts.
use keyforge.Prelude.{
  String, ◌≡◌, refl, ap, false, List, [], ◌∷◌, arith, filter, string_eq, option_eq, nat_eq,
}
use keyforge.Oauth.PermissionRules.{
  Condition, Conditions, single, set, group, nil, cons, and, or, Field, application, api, scope,
  Context, EffectiveRule, permission_rule_matches, matches_every, matches_some,
  condition_uses_scope, some_use_scope, is_scope_field, actual, base, applies,
  resolve_permission_rules, matches_single, matches_set,
}

abbrev pub with_scope : Context → String → Context
with_scope context s = record context { scope = s }

actual_scope :
    (context : Context) (s : String) (field : Field)
    → is_scope_field field ≡ false
    → actual context field ≡ actual (with_scope context s) field
actual_scope context s application h = refl
actual_scope context s api h = refl
actual_scope context s scope h = cc

mutual
  unfolding permission_rule_matches condition_uses_scope

  matches_scope :
      (c : Condition) (context : Context) (s : String)
      → condition_uses_scope c ≡ false
      → permission_rule_matches c context ≡ permission_rule_matches c (with_scope context s)
  matches_scope (single field operator value) context s h =
      ap (λ a. matches_single operator a value) (actual_scope context s field h)
  matches_scope (set field operator values) context s h =
      ap (λ a. matches_set operator a values) (actual_scope context s field h)
  matches_scope (group and conditions) context s h = every_scope conditions context s h
  matches_scope (group or conditions) context s h = some_scope conditions context s h

  every_scope :
      (cs : Conditions) (context : Context) (s : String)
      → some_use_scope cs ≡ false
      → matches_every cs context ≡ matches_every cs (with_scope context s)
  every_scope nil context s h = refl
  every_scope (cons child rest) context s h =
      ground (arith, matches_scope child context s, every_scope rest context s)

  some_scope :
      (cs : Conditions) (context : Context) (s : String)
      → some_use_scope cs ≡ false
      → matches_some cs context ≡ matches_some cs (with_scope context s)
  some_scope nil context s h = refl
  some_scope (cons child rest) context s h =
      ground (arith, matches_scope child context s, some_scope rest context s)

base_applies :
    (context : Context) (s : String) (rule : EffectiveRule)
    → applies context base rule ≡ applies (with_scope context s) base rule
unfolding applies
base_applies context s rule = ground (arith, matches_scope rule.condition context s)

base_filter :
    (rules : List EffectiveRule) (context : Context) (s : String)
    → filter (applies context base) rules ≡ filter (applies (with_scope context s) base) rules
base_filter [] context s = refl
base_filter (rule ∷ rules) context s =
    ground (arith, base_applies context s rule, base_filter rules context s)

-- The decision of the base stage does not depend on the scope of the context.
pub resolve_base_scope :
    (rules : List EffectiveRule) (context : Context) (s : String)
    → resolve_permission_rules rules context base
      ≡ resolve_permission_rules rules (with_scope context s) base
unfolding resolve_permission_rules
resolve_base_scope rules context s = rw (base_filter rules context s)
