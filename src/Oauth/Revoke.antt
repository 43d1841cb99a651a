-- ===== src/Oauth/Revoke.antt =====
-- src/oauth/revoke.ts. Audit records are not modelled.
pub mod Final
pub mod Tests
use keyforge.Prelude.{ℕ, String, Bool, Option, none, some, if◌then◌else◌, ◌==◌, string_eq}
use keyforge.Security.Crypto.{Platform}
use keyforge.Oauth.Domain.{OauthClient}
use keyforge.RefreshTokens.{Row, Store, revoke_family, mark_refresh_token_revoked}
use keyforge.Oauth.RefreshGrant.{lookup_presented_family}

-- Status 200 even for a token that is not known, and 400 without one. A call that is rejected is not
-- caught.
pub data RevokeAnswer : Type 0 where
  missing_token accepted server_error : RevokeAnswer

-- Do the family's object and then the database carry out what they are asked to?
pub record Answers : Type 0 where
  pub object : Bool
  pub database : Bool

-- The object first, then the row; what comes after a failure is not done.
abbrev pub revoke_own : Answers → (now : ℕ) → Row → Store → RevokeAnswer × Store
revoke_own answers now row s =
    let revoked = revoke_family row.id s in
    if answers.object
    then if answers.database
      then (accepted, record revoked { rows = mark_refresh_token_revoked row.id now revoked.rows })
      else (server_error, revoked)
    else (server_error, s)

abbrev pub revoke_record :
    Answers → (now : ℕ) → OauthClient → Option Row → Store → RevokeAnswer × Store
revoke_record answers now client none s = (accepted, s)
revoke_record answers now client (some row) s =
    if row.client_id == client.client_id then revoke_own answers now row s else (accepted, s)

-- The row is looked up as the refresh grant does it.
pub handle_revoke :
    Platform
    → Answers
    → (now : ℕ) → OauthClient
    → (token : Option String) → Store
    → RevokeAnswer × Store
handle_revoke p answers now client none s = (missing_token, s)
handle_revoke p answers now client (some token) s =
    revoke_record answers now client (lookup_presented_family p token s.rows) s
