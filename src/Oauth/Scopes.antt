-- ===== src/Oauth/Scopes.antt =====
-- src/oauth/scopes.ts and src/oauth/scope-policy.ts.
pub mod Parse
pub mod Requested
pub mod Tests
use Prim.Native.Char.{Char, code}
use Prim.Native.String
use keyforge.Prelude.{
  ℕ, ◌+◌, String, Bool, true, false, not, ◌&&◌, ◌||◌, Option, none, some, List, [], ◌∷◌, ◌++◌, ltb,
  leb, eqb, if◌then◌else◌, length, any, all, filter, includes, string_eq, option_eq, nat_eq, codes,
}
use keyforge.Env.{user_only_scopes}
use keyforge.Oauth.Errors.{Attempt, returned, thrown, invalid_scope}

abbrev pub oauth_scope_max_count : ℕ
oauth_scope_max_count = 64

abbrev pub oauth_scope_max_bytes : ℕ
oauth_scope_max_bytes = 128

-- The class [\x21\x23-\x5B\x5D-\x7E].
abbrev is_scope_character : ℕ → Bool
is_scope_character c = eqb c 0x21 || (leb 0x23 c && leb c 0x5B) || (leb 0x5D c && leb c 0x7E)

-- SCOPE_TOKEN: one such character or more.
abbrev pub is_scope_token : String → Bool
is_scope_token scope = leb 1 (length (codes scope)) && all is_scope_character (codes scope)

-- `new Set(values)` in the order of insertion: the first of each value.
abbrev pub has_duplicate : List String → Bool
has_duplicate [] = false
has_duplicate (x ∷ xs) = includes xs x || has_duplicate xs

pub data CatalogFault : Type 0 where
  too_many duplicate invalid : CatalogFault

pub data CatalogValidation : Type 0 where
  valid : List String → CatalogValidation
  fault : CatalogFault → CatalogValidation

-- `utf8_length` is the number of bytes that TextEncoder yields.
pub validate_scope_catalog : (utf8_length : String → ℕ) → List String → CatalogValidation
validate_scope_catalog utf8_length scopes =
    if ltb oauth_scope_max_count (length scopes)
    then fault too_many
    else if has_duplicate scopes
    then fault duplicate
    else if any
        (λ scope.
          not (is_scope_token scope)
          || eqb (utf8_length scope) 0
          || ltb oauth_scope_max_bytes (utf8_length scope))
        scopes
    then fault invalid
    else valid scopes

-- The characters of \s, at which `trim` cuts too.
abbrev pub is_space : ℕ → Bool
is_space c =
    (leb 9 c && leb c 13)
    || eqb c 32
    || eqb c 0xA0
    || eqb c 0x1680
    || (leb 0x2000 c && leb c 0x200A)
    || eqb c 0x2028
    || eqb c 0x2029
    || eqb c 0x202F
    || eqb c 0x205F
    || eqb c 0x3000
    || eqb c 0xFEFF

abbrev pub is_empty : String → Bool
is_empty String.[] = true
is_empty (String.◌∷◌ c s) = false

abbrev pub push : Char → List String → List String
push c [] = String.◌∷◌ c String.[] ∷ []
push c (w ∷ ws) = String.◌∷◌ c w ∷ ws

-- The fields between single separators; `split(/\s+/)` yields the same but for empty fields, which
-- `trim` and the filter behind it drop.
unfoldable pub fields : String → List String
fields String.[] = String.[] ∷ []
fields (String.◌∷◌ c s) = if is_space (code c) then String.[] ∷ fields s else push c (fields s)

unfoldable pub parse_scopes : String → List String
unfolding fields
parse_scopes raw = filter (λ scope. not (is_empty scope)) (fields raw)

-- `null` and `undefined` have no scopes.
unfoldable pub parse_scope_string : Option String → List String
parse_scope_string none = []
parse_scope_string (some raw) = parse_scopes raw

abbrev pub join_after : String → List String → String
join_after s [] = s
join_after s (x ∷ xs) = String.◌++◌ s (String.◌++◌ " " (join_after x xs))

-- `join(" ")`.
unfoldable pub serialize_scopes : List String → String
serialize_scopes [] = String.[]
serialize_scopes (x ∷ xs) = join_after x xs

unfoldable pub validate_requested_scopes : (requested allowed : List String) → Attempt (List String)
validate_requested_scopes requested allowed =
    if ltb 0 (length (filter (λ scope. not (includes allowed scope)) requested))
    then thrown invalid_scope
    else returned requested

-- RESOURCE_AUTHORIZED_SCOPES are USER_ONLY_SCOPES.
abbrev pub is_resource_authorized_scope : String → Bool
is_resource_authorized_scope scope = includes user_only_scopes scope

abbrev pub is_permission_group_controlled_scope : String → Bool
is_permission_group_controlled_scope scope = not (is_resource_authorized_scope scope)
