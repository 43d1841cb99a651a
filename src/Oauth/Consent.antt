-- ===== src/Oauth/Consent.antt =====
-- src/oauth/consent.ts over the row that src/db/queries/consents.ts reads.
use keyforge.Prelude.{
  String, Bool, true, false, Option, none, some, List, if◌then◌else◌, all, includes, ◌!=◌,
  string_eq, option_eq, nat_eq,
}
use keyforge.Env.{Env, yolo_allow}
use keyforge.Oauth.Scopes.{parse_scope_string}

pub record ConsentRecord : Type 0 where
  pub scope : String
  pub metadata_fingerprint : Option String

unfoldable pub covers : Option ConsentRecord → List String → Option String → Bool
covers none requested fingerprint = false
covers (some consent) requested fingerprint =
    if consent.metadata_fingerprint != fingerprint
    then false
    else all (λ scope. includes (parse_scope_string (some consent.scope)) scope) requested

-- The row is the user's consent to the client for the resource.
unfoldable pub consent_covers_scopes :
    Env
    → (consent : Option ConsentRecord) → (requested_scopes : List String)
    → (metadata_fingerprint : Option String) → Bool
unfolding covers
consent_covers_scopes env consent requested_scopes metadata_fingerprint =
    if yolo_allow env then true else covers consent requested_scopes metadata_fingerprint
