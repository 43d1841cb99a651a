-- ===== src/Oauth/Scopes/Tests.antt =====
-- Scope strings at concrete texts.
-- About src/oauth/scopes.ts and src/oauth/scope-policy.ts.
use keyforge.Prelude.{
  ℕ, String, ◌≡◌, refl, List, [], ◌∷◌, arith, length, string_eq, option_eq, nat_eq, codes,
}
use keyforge.Oauth.Scopes.{valid, validate_scope_catalog, parse_scopes, serialize_scopes, fields}
use keyforge.Oauth.Scopes.Parse.{parse_scopes-serialize_scopes}

abbrev sample_scopes : List String
sample_scopes = "openid" ∷ "read:x" ∷ []

abbrev bytes : String → ℕ
bytes s = length (codes s)

catalog_valid : validate_scope_catalog bytes sample_scopes ≡ valid sample_scopes
unfolding validate_scope_catalog
catalog_valid = refl

spaces : parse_scopes "  openid\tread:x " ≡ sample_scopes
unfolding parse_scopes fields
spaces = refl

parse_scopes-serialize_scopes_example :
    parse_scopes (serialize_scopes sample_scopes) ≡ sample_scopes
parse_scopes-serialize_scopes_example = parse_scopes-serialize_scopes sample_scopes (ground arith)
