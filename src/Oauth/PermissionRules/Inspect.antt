-- ===== src/Oauth/PermissionRules/Inspect.antt =====
-- What validation lets through.
-- About src/oauth/permission-rules.ts.
use keyforge.Prelude.{
  ℕ, suc, ◌+◌, ◌≤◌, max, String, ◌≡◌, refl, Bool, true, false, ◌&&◌, ◌||◌, List, [], ◌∷◌, ◌++◌, map,
  arith, length, any, All, string_eq, option_eq, nat_eq,
}
use keyforge.Oauth.Scopes.{is_resource_authorized_scope, has_duplicate}
use keyforge.Oauth.PermissionRules.{
  Condition, Conditions, single, set, group, nil, cons, Field, application, api, scope, RuleInput,
  is_scope_field, Inspection, inspect_condition, inspect_children, list_permission_rule_references,
  list_references, is_standard, max_permission_rule_depth, max_permission_rule_nodes,
  max_permission_group_rules, validate_permission_group_rules, inspect_rules, valid, given_ids,
  rules_parse, is_nonempty, join,
}

mutual
  -- The number of conditions in a tree.
  pub size : Condition → ℕ
  size (single field operator value) = 1
  size (set field operator values) = 1
  size (group operator conditions) = suc (sizes conditions)

  pub sizes : Conditions → ℕ
  sizes nil = 0
  sizes (cons child rest) = size child + sizes rest

mutual
  -- The number of conditions on its longest path.
  pub height : Condition → ℕ
  height (single field operator value) = 1
  height (set field operator values) = 1
  height (group operator conditions) = suc (heights conditions)

  pub heights : Conditions → ℕ
  heights nil = 0
  heights (cons child rest) = max (height child) (heights rest)

abbrev pub names_standard : Field × String → Bool
names_standard (field, value) = is_scope_field field && is_resource_authorized_scope value

abbrev mentions : List (Field × String) → Bool
mentions references = any names_standard references

mentions-append :
    (xs ys : List (Field × String)) → mentions (xs ++ ys) ≡ (mentions xs || mentions ys)
mentions-append [] ys = refl
mentions-append (x ∷ xs) ys = ground (arith, mentions-append xs ys)

mentions-values :
    (field : Field) (values : List String)
    → mentions (map (λ value. (field, value)) values) ≡ is_standard field values
mentions-values application [] = refl
mentions-values application (x ∷ xs) = mentions-values application xs
mentions-values api [] = refl
mentions-values api (x ∷ xs) = mentions-values api xs
mentions-values scope [] = refl
mentions-values scope (x ∷ xs) = ground (arith, mentions-values scope xs)

-- What a valid inspection of a condition says of it.
pub record IsMeasured (c : Condition) (depth : ℕ) (i : Inspection) : Type 0 where
  pub nodes : i.nodes ≡ size c
  pub small : size c ≤ max_permission_rule_nodes
  pub shallow : depth + height c ≤ suc max_permission_rule_depth
  pub standard : i.standard_scope ≡ mentions (list_permission_rule_references c)

record AreMeasured (cs : Conditions) (depth : ℕ) (so_far i : Inspection) : Type 0 where
  nodes : i.nodes ≡ so_far.nodes + sizes cs
  was_valid : so_far.valid ≡ true
  shallow : depth + heights cs ≤ max depth (suc max_permission_rule_depth)
  standard : i.standard_scope ≡ (so_far.standard_scope || mentions (list_references cs))

mutual
  unfolding inspect_condition size height list_permission_rule_references

  inspected :
      (c : Condition) (depth : ℕ)
      → (inspect_condition c depth).valid ≡ true
      → IsMeasured c depth (inspect_condition c depth)
  inspected (single field operator value) depth h =
      ground (arith, mentions-values field (value ∷ []))
  inspected (set field operator values) depth h = ground (arith, mentions-values field values)
  inspected (group operator conditions) depth h =
      let start : Inspection = record {
        nodes = 1;
        valid = is_nonempty conditions;
        standard_scope = false;
      } in
      let ic = children_inspected conditions (depth + 1) start (ground arith) in
      ground (arith, ic.nodes, ic.shallow, ic.standard)

  children_inspected :
      (cs : Conditions) (depth : ℕ) (so_far : Inspection)
      → (inspect_children cs depth so_far).valid ≡ true
      → AreMeasured cs depth so_far (inspect_children cs depth so_far)
  children_inspected nil depth so_far h = ground arith
  children_inspected (cons child rest) depth so_far h =
      let ih = children_inspected rest depth (join so_far (inspect_condition child depth)) h in
      let ic = inspected child depth (ground (arith, ih.was_valid)) in
      record {
        nodes = omega (arith, ih.nodes, ic.nodes);
        was_valid = ground (arith, ih.was_valid);
        shallow = omega (arith, ih.shallow, ic.shallow);
        standard = ground (
          arith,
          ih.standard,
          ic.standard,
          mentions-append (list_permission_rule_references child) (list_references rest),
        );
      }

-- The rule stays within the depth and the number of conditions, and names no standard scope.
pub record IsBounded (rule : RuleInput) : Type 0 where
  pub small : size rule.condition ≤ max_permission_rule_nodes
  pub shallow : height rule.condition ≤ max_permission_rule_depth
  pub custom : any names_standard (list_permission_rule_references rule.condition) ≡ false

inspect_rules-IsBounded :
    (todo all_rules accepted : List RuleInput)
    → inspect_rules todo all_rules ≡ valid accepted
    → (accepted ≡ all_rules) × All IsBounded todo
unfolding inspect_rules
inspect_rules-IsBounded [] all_rules accepted h = (ground arith, tt)
inspect_rules-IsBounded (rule ∷ todo) all_rules accepted h =
    let m = inspected rule.condition 1 (ground arith) in
    let (same, rest) = inspect_rules-IsBounded todo all_rules accepted (ground arith) in
    (
      same,
      (
        record {
          small = m.small;
          shallow = omega (arith, m.shallow);
          custom = ground (arith, m.standard);
        },
        rest,
      ),
    )

-- Validation accepts only the rules as they were given, and only if there are no more of them than
-- the limit, the identifiers given among them are distinct, and each stays within the limits on
-- depth and on conditions and names none of the scopes that every resource authorizes.
pub validate_permission_group_rules-IsBounded :
    (utf16_length : String → ℕ) (raw rules : List RuleInput)
    → validate_permission_group_rules utf16_length raw ≡ valid rules
    → (rules ≡ raw)
      × (length raw ≤ max_permission_group_rules)
      × (has_duplicate (given_ids raw) ≡ false)
      × All IsBounded raw
unfolding validate_permission_group_rules rules_parse
validate_permission_group_rules-IsBounded u raw rules h =
    let (same, bounded) = inspect_rules-IsBounded raw raw rules (ground arith) in
    (same, ground arith, ground arith, bounded)
