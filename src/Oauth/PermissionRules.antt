-- ===== src/Oauth/PermissionRules.antt =====
-- src/oauth/permission-rules.ts. A condition is a tree; the list of a group's conditions is a type of
-- its own. Of the zod schema the bounds are modelled, over values that have the shape of a rule; a
-- value that has not fails to parse in the same way as one that breaks a bound.
pub mod Stages
pub mod Inspect
pub mod Resolve
pub mod Order
pub mod Tests
use keyforge.Prelude.{
  ℕ, suc, ◌+◌, min, String, Bool, true, false, not, ◌&&◌, ◌||◌, Option, none, some, List, [], ◌∷◌,
  ◌++◌, map, ltb, leb, eqb, if◌then◌else◌, length, any, all, filter, includes, ◌==◌, ◌!=◌,
  string_eq, option_eq, nat_eq,
}
use keyforge.Oauth.Scopes.{is_resource_authorized_scope, has_duplicate}

abbrev pub max_permission_group_rules : ℕ
max_permission_group_rules = 256

abbrev pub max_permission_rule_depth : ℕ
max_permission_rule_depth = 5

abbrev pub max_permission_rule_nodes : ℕ
max_permission_rule_nodes = 64

abbrev pub max_permission_rule_children : ℕ
max_permission_rule_children = 16

abbrev pub max_permission_rule_set_values : ℕ
max_permission_rule_set_values = 64

pub data Effect : Type 0 where
  allow deny : Effect

pub data Field : Type 0 where
  application api scope : Field

pub data SingleOperator : Type 0 where
  equals not_equals : SingleOperator

pub data SetOperator : Type 0 where
  in_set not_in_set : SetOperator

pub data GroupOperator : Type 0 where
  and or : GroupOperator

mutual
  pub data Condition : Type 0 where
    single : Field → SingleOperator → String → Condition
    set : Field → SetOperator → List String → Condition
    group : GroupOperator → Conditions → Condition

  pub data Conditions : Type 0 where
    nil : Conditions
    cons : Condition → Conditions → Conditions

pub record RuleInput : Type 0 where
  pub id : Option String
  pub effect : Effect
  pub condition : Condition

pub record EffectiveRule : Type 0 where
  pub id : String
  pub effect : Effect
  pub condition : Condition
  pub group_id : String
  pub group_name : String
  pub priority : ℕ

pub record Context : Type 0 where
  pub application : String
  pub api : String
  pub scope : String

abbrev pub is_scope_field : Field → Bool
is_scope_field application = false
is_scope_field api = false
is_scope_field scope = true

-- `context[condition.field]`.
abbrev pub actual : Context → Field → String
actual context application = context.application
actual context api = context.api
actual context scope = context.scope

abbrev pub matches_single : SingleOperator → (actual value : String) → Bool
matches_single equals actual value = actual == value
matches_single not_equals actual value = actual != value

abbrev pub matches_set : SetOperator → (actual : String) → (values : List String) → Bool
matches_set in_set actual values = includes values actual
matches_set not_in_set actual values = not (includes values actual)

unfoldable mutual
  pub permission_rule_matches : Condition → Context → Bool
  permission_rule_matches (single field operator value) context =
      matches_single operator (actual context field) value
  permission_rule_matches (set field operator values) context =
      matches_set operator (actual context field) values
  permission_rule_matches (group and conditions) context = matches_every conditions context
  permission_rule_matches (group or conditions) context = matches_some conditions context

  pub matches_every : Conditions → Context → Bool
  matches_every nil context = true
  matches_every (cons child rest) context =
      permission_rule_matches child context && matches_every rest context

  pub matches_some : Conditions → Context → Bool
  matches_some nil context = false
  matches_some (cons child rest) context =
      permission_rule_matches child context || matches_some rest context

unfoldable mutual
  pub condition_uses_scope : Condition → Bool
  condition_uses_scope (single field operator value) = is_scope_field field
  condition_uses_scope (set field operator values) = is_scope_field field
  condition_uses_scope (group operator conditions) = some_use_scope conditions

  pub some_use_scope : Conditions → Bool
  some_use_scope nil = false
  some_use_scope (cons child rest) = condition_uses_scope child || some_use_scope rest

pub record Inspection : Type 0 where
  pub nodes : ℕ
  pub valid : Bool
  pub standard_scope : Bool

abbrev too_deep : Inspection
too_deep = record { nodes = 1; valid = false; standard_scope = false }

abbrev pub is_standard : Field → List String → Bool
is_standard field values = is_scope_field field && any is_resource_authorized_scope values

-- The loop over the children joins what each of them yields to what the ones before it did.
abbrev join : Inspection → Inspection → Inspection
join so_far child = record {
  nodes = so_far.nodes + child.nodes;
  valid = so_far.valid && child.valid;
  standard_scope = so_far.standard_scope || child.standard_scope;
}

abbrev is_nonempty : Conditions → Bool
is_nonempty nil = false
is_nonempty (cons child rest) = true

abbrev bound_nodes : Inspection → Inspection
bound_nodes i = record i { valid = i.valid && leb i.nodes max_permission_rule_nodes }

mutual
  pub inspect_condition : Condition → (depth : ℕ) → Inspection
  inspect_condition (single field operator value) depth =
      if ltb max_permission_rule_depth depth
      then too_deep
      else record { nodes = 1; valid = true; standard_scope = is_standard field (value ∷ []) }
  inspect_condition (set field operator values) depth =
      if ltb max_permission_rule_depth depth
      then too_deep
      else record { nodes = 1; valid = true; standard_scope = is_standard field values }
  inspect_condition (group operator conditions) depth =
      if ltb max_permission_rule_depth depth
      then too_deep
      else bound_nodes (
          inspect_children conditions (depth + 1)
            (record { nodes = 1; valid = is_nonempty conditions; standard_scope = false }))

  pub inspect_children : Conditions → (depth : ℕ) → (so_far : Inspection) → Inspection
  inspect_children nil depth so_far = so_far
  inspect_children (cons child rest) depth so_far =
      inspect_children rest depth (join so_far (inspect_condition child depth))

unfoldable mutual
  pub list_permission_rule_references : Condition → List (Field × String)
  list_permission_rule_references (single field operator value) = (field, value) ∷ []
  list_permission_rule_references (set field operator values) = map (λ value. (field, value)) values
  list_permission_rule_references (group operator conditions) = list_references conditions

  pub list_references : Conditions → List (Field × String)
  list_references nil = []
  list_references (cons child rest) = list_permission_rule_references child ++ list_references rest

-- A match condition in a list of them is `single` or `set`.
unfoldable mutual
  pub list_permission_rule_matches : Condition → List Condition
  list_permission_rule_matches (single field operator value) = single field operator value ∷ []
  list_permission_rule_matches (set field operator values) = set field operator values ∷ []
  list_permission_rule_matches (group operator conditions) = list_matches conditions

  pub list_matches : Conditions → List Condition
  list_matches nil = []
  list_matches (cons child rest) = list_permission_rule_matches child ++ list_matches rest

abbrev pub count : Conditions → ℕ
count nil = 0
count (cons child rest) = suc (count rest)

-- The bounds of the schema. `utf16_length` is the length of a text in the units of the language.
module _ (utf16_length : String → ℕ) where
  abbrev value_parses : String → Bool
  value_parses value = leb 1 (utf16_length value) && leb (utf16_length value) 2048

  mutual
    condition_parses : Condition → Bool
    condition_parses (single field operator value) = value_parses value
    condition_parses (set field operator values) =
        all value_parses values
        && leb 1 (length values)
        && leb (length values) max_permission_rule_set_values
        && not (has_duplicate values)
    condition_parses (group operator conditions) =
        conditions_parse conditions
        && leb 1 (count conditions)
        && leb (count conditions) max_permission_rule_children

    conditions_parse : Conditions → Bool
    conditions_parse nil = true
    conditions_parse (cons child rest) = condition_parses child && conditions_parse rest

  id_parses : Option String → Bool
  id_parses none = true
  id_parses (some id) = leb 1 (utf16_length id) && leb (utf16_length id) 128

  rule_parses : RuleInput → Bool
  unfolding id_parses
  rule_parses rule = id_parses rule.id && condition_parses rule.condition

  rules_parse : List RuleInput → Bool
  unfolding rule_parses
  rules_parse rules = all rule_parses rules && leb (length rules) max_permission_group_rules

abbrev pub add_id : Option String → List String → List String
add_id none ids = ids
add_id (some id) ids = id ∷ ids

abbrev pub given_ids : List RuleInput → List String
given_ids [] = []
given_ids (rule ∷ rules) = add_id rule.id (given_ids rules)

pub data Issue : Type 0 where
  invalid_rule too_many_rules duplicate_rule_id standard_scope : Issue

pub data Validation : Type 0 where
  valid : List RuleInput → Validation
  issue : Issue → Validation

-- The loop over the parsed rules: the first issue, or else all of them.
inspect_rules : (todo all_rules : List RuleInput) → Validation
inspect_rules [] all_rules = valid all_rules
inspect_rules (rule ∷ todo) all_rules =
    let rest = inspect_rules todo all_rules in
    let inspected = inspect_condition rule.condition 1 in
    if not inspected.valid || ltb max_permission_rule_nodes inspected.nodes
    then issue invalid_rule
    else if inspected.standard_scope
    then issue standard_scope
    else rest

pub validate_permission_group_rules : (utf16_length : String → ℕ) → List RuleInput → Validation
validate_permission_group_rules utf16_length raw =
    if rules_parse utf16_length raw
    then if has_duplicate (given_ids raw) then issue duplicate_rule_id else inspect_rules raw raw
    else if ltb max_permission_group_rules (length raw)
    then issue too_many_rules
    else issue invalid_rule

pub data Stage : Type 0 where
  base scoped : Stage

abbrev pub is_scoped : Stage → Bool
is_scoped base = false
is_scoped scoped = true

pub data Decision : Type 0 where
  allowed denied : (priority : ℕ) → Decision
  no_match : Decision

abbrev pub same_bool : Bool → Bool → Bool
same_bool true b = b
same_bool false b = not b

abbrev pub is_deny : Effect → Bool
is_deny allow = false
is_deny deny = true

unfoldable pub applies : Context → Stage → EffectiveRule → Bool
applies context stage rule =
    same_bool (condition_uses_scope rule.condition) (is_scoped stage)
    && permission_rule_matches rule.condition context

-- `Math.min` of the priorities, the first of them given.
unfoldable pub least_priority : ℕ → List EffectiveRule → ℕ
least_priority least [] = least
least_priority least (rule ∷ rules) = least_priority (min least rule.priority) rules

unfoldable pub decide : (priority : ℕ) → List EffectiveRule → Decision
decide priority matching =
    if any (λ rule. is_deny rule.effect) (filter (λ rule. eqb rule.priority priority) matching)
    then denied priority
    else allowed priority

unfoldable pub resolve_matching : List EffectiveRule → Decision
resolve_matching [] = no_match
resolve_matching (rule ∷ rules) = decide (least_priority rule.priority rules) (rule ∷ rules)

unfoldable pub resolve_permission_rules : List EffectiveRule → Context → Stage → Decision
resolve_permission_rules rules context stage =
    resolve_matching (filter (applies context stage) rules)
