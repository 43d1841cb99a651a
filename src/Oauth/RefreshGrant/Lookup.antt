-- ===== src/Oauth/RefreshGrant/Lookup.antt =====
-- The row that a presented token is looked up by.
-- About src/oauth/token/refresh-token.ts.
use keyforge.Prelude.{
  String, ◌≡◌, refl, ◌∙◌, inl, inr, ◌&&◌, Option, none, some, List, Bool-cases, ◌!=◌, IsMember,
  string_eq, option_eq, nat_eq,
}
use keyforge.Security.Crypto.{Platform, hash_opaque_token}
use keyforge.RefreshTokens.{Row, family_of, get_refresh_token_by_hash}
use keyforge.RefreshTokens.Revocation.{get_refresh_token-IsMember}
use keyforge.Oauth.RefreshGrant.{has_separator, or_by_family, lookup_presented_family}

or_by_family-IsMember :
    (presented key : String) (rows : List Row) (o : Option Row) (row : Row)
    → get_refresh_token_by_hash key rows ≡ o
    → or_by_family presented rows o ≡ some row
    → IsMember row rows
or_by_family-IsMember presented key rows (some first) row e h =
    get_refresh_token-IsMember key rows row (inl (e ∙ h))
or_by_family-IsMember presented key rows none row e h =
    elim (Bool-cases (has_separator presented && family_of presented != "")) [
      | inl named ↦ get_refresh_token-IsMember (family_of presented) rows row (inr (rw named at h))
      | inr unnamed ↦ cc (rw unnamed at h)
    ]

pub lookup_presented_family-IsMember :
    (p : Platform) (presented : String) (rows : List Row) (row : Row)
    → lookup_presented_family p presented rows ≡ some row
    → IsMember row rows
unfolding lookup_presented_family
lookup_presented_family-IsMember p presented rows row h =
    or_by_family-IsMember presented (hash_opaque_token p presented) rows _ row refl h
