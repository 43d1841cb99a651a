-- ===== src/Oauth/RefreshGrant.antt =====
-- src/oauth/token/refresh-token.ts over the rows and objects of RefreshTokens. Audit records are not
-- modelled.
pub mod Granted
pub mod Lookup
pub mod Tests
use Prim.Native.Char.{code}
use Prim.Native.String
use keyforge.Prelude.{
  ℕ, String, Bool, true, false, not, ◌&&◌, ◌||◌, Option, none, some, List, [], ◌∷◌, leb, eqb, any,
  if◌then◌else◌, includes, ◌==◌, ◌!=◌, string_eq, option_eq,
}
use keyforge.Env.{Env}
use keyforge.Security.Crypto.{Platform, hash_opaque_token}
use keyforge.Oauth.Errors.{
  Attempt, returned, thrown, ◌>>=◌, ◌>>◌, require, invalid_request, unauthorized_client,
  invalid_grant, invalid_scope,
}
use keyforge.Oauth.Domain.{OauthClient, OauthResource}
use keyforge.Oauth.Redirect.{ParseUrl}
use keyforge.Oauth.Scopes.{parse_scope_string, serialize_scopes}
use keyforge.Oauth.Resources.{Directory, resolve_resource_for_scopes}
use keyforge.Oauth.Tokens.{
  User, View, TokenResponse, AccessInput, IdInput, Signer, available, session_is, is_consented,
  is_permitted, signed_response,
}
use keyforge.RefreshTokens.{
  Row, Store, is_unrevoked, family_of, get_refresh_token_by_hash, get_refresh_token_by_family_id,
}
use keyforge.RefreshTokens.Rotate.{
  Rotated, RotateOutcome, rotated, reuse_detected, too_soon, reauthorization_required, invalid,
  RotateDraw, rotate_refresh_token,
}

-- A request of the token endpoint, with everything it reads: `after` is what the user is read from once
-- the token is rotated.
pub record Request : Type 0 where
  pub platform : Platform
  pub parse : ParseUrl
  pub env : Env
  pub directory : Directory
  pub before : View
  pub after : View
  pub signer : Signer
  pub draw : RotateDraw
  pub client : OauthClient
  pub refresh_token : Option String
  pub resource : Option String
  pub scope : Option String
  pub now : ℕ

-- A response, or the answer that the rotation comes too soon.
pub data Answer : Type 0 where
  tokens : TokenResponse → Answer
  retry_later : (seconds : ℕ) → Answer

abbrev pub has_separator : String → Bool
has_separator String.[] = false
has_separator (String.◌∷◌ c s) = eqb (code c) b'.' || has_separator s

abbrev pub or_by_family : (presented : String) → List Row → Option Row → Option Row
or_by_family presented rows (some row) = some row
or_by_family presented rows none =
    if has_separator presented && family_of presented != ""
    then get_refresh_token_by_family_id (family_of presented) rows
    else none

unfoldable pub lookup_presented_family : Platform → (presented : String) → List Row → Option Row
lookup_presented_family p presented rows =
    or_by_family presented rows (get_refresh_token_by_hash (hash_opaque_token p presented) rows)

abbrev pub present : {A : Type 0} → Option A → Attempt A
present none = thrown invalid_grant
present (some a) = returned a

abbrev pub is_mcp : Option OauthResource → Bool
is_mcp none = false
is_mcp (some resource) = resource.mcp_enabled

-- The resource may be left out unless it is one for the remote protocol, and may not be another one.
abbrev pub check_resource : (mcp : Bool) → (bound : String) → Option String → Attempt (Unit {0})
check_resource mcp bound none = require (not mcp) invalid_request
check_resource mcp bound (some presented) = require (presented == bound) invalid_grant

abbrev pub requested_scopes : (original : List String) → Option String → List String
requested_scopes original none = original
requested_scopes original (some requested) = parse_scope_string (some requested)

abbrev pub is_empty : List String → Bool
is_empty [] = true
is_empty (x ∷ xs) = false

abbrev pub expands : (original scopes : List String) → Bool
expands original scopes = is_empty scopes || any (λ scope. not (includes original scope)) scopes

-- The session that the family came from, if any, is still the user's.
abbrev pub is_sourced : View → Option String → (user_id : String) → Bool
is_sourced view none user_id = true
is_sourced view (some session_id) user_id = session_is view (some session_id) user_id

-- An OAuthError of the resource check is another error here.
abbrev pub as_invalid_grant : {A : Type 0} → Attempt A → Attempt A
as_invalid_grant (thrown code) = thrown invalid_grant
as_invalid_grant (returned a) = returned a

-- The checks on the row, the user and the scopes.
check_authorization : Request → Row → (scopes : List String) → Attempt (List String)
check_authorization q row scopes = do
  user ← available (q.before.user_by_id row.user_id)
  require (is_sourced q.before row.session_id user.id) invalid_grant
  require (is_permitted q.env q.client q.before row.user_id row.resource scopes) invalid_grant
  require (is_consented q.env q.client q.before row.user_id row.resource scopes) invalid_grant
  as_invalid_grant
      (resolve_resource_for_scopes q.parse q.env q.directory q.client (some row.resource) scopes)
  returned scopes

-- The scopes that the rotation is for.
check_row : Request → Row → Attempt (List String)
unfolding check_authorization
check_row q row = do
  require
      (row.client_id == q.client.client_id && is_unrevoked row && not (leb row.expires_at q.now))
      invalid_grant
  check_resource (is_mcp (q.directory.resource_by_uri row.resource)) row.resource q.resource
  require
      (not (
        expands (parse_scope_string (some row.scope))
          (requested_scopes (parse_scope_string (some row.scope)) q.scope)))
      invalid_scope
  check_authorization q row (requested_scopes (parse_scope_string (some row.scope)) q.scope)

check_request : Request → (presented : String) → List Row → Attempt (List String)
unfolding check_row
check_request q presented rows = do
  require (includes q.client.allowed_grant_types "refresh_token") unauthorized_client
  row ← present (lookup_presented_family q.platform presented rows)
  check_row q row

abbrev pub rotated_access : OauthClient → User → Rotated → AccessInput
rotated_access client user r = record {
  user_id = user.id;
  client_id = client.client_id;
  resource = r.resource;
  scope = r.scope;
  auth_time = r.auth_time;
}

abbrev pub rotated_id : OauthClient → User → Rotated → IdInput
rotated_id client user r = record {
  user = user;
  client_id = client.client_id;
  scopes = parse_scope_string (some r.scope);
  auth_time = r.auth_time;
  nonce = none;
}

issue_rotated_tokens : Request → Rotated → Attempt TokenResponse
issue_rotated_tokens q r = do
  require (r.client_id == q.client.client_id) invalid_grant
  user ← available (q.after.user_by_id r.user_id)
  signed_response q.signer (rotated_access q.client user r) (rotated_id q.client user r)
      (some r.token)

abbrev answer_tokens : Attempt TokenResponse → Attempt Answer
answer_tokens attempt = do response ← attempt; returned (tokens response)

-- The switch over the outcome of the rotation.
answer_outcome : Request → Attempt RotateOutcome → Attempt Answer
unfolding issue_rotated_tokens
answer_outcome q (thrown code) = thrown code
answer_outcome q (returned invalid) = thrown invalid_grant
answer_outcome q (returned (reuse_detected family_id)) = thrown invalid_grant
answer_outcome q (returned (too_soon seconds)) = returned (retry_later seconds)
answer_outcome q (returned (reauthorization_required family_id)) = thrown invalid_grant
answer_outcome q (returned (rotated r)) = answer_tokens (issue_rotated_tokens q r)

-- The rotation, once the checks have passed.
refresh : Request → (presented : String) → Attempt (List String) → Store → Attempt Answer × Store
unfolding answer_outcome
refresh q presented (thrown code) s = (thrown code, s)
refresh q presented (returned scopes) s =
    let (outcome, s') =
      rotate_refresh_token q.platform q.draw presented q.client.client_id (serialize_scopes scopes)
        s in
    (answer_outcome q outcome, s')

refresh_presented : Request → Option String → Store → Attempt Answer × Store
unfolding refresh check_request
refresh_presented q none s = (thrown invalid_request, s)
refresh_presented q (some presented) s = refresh q presented (check_request q presented s.rows) s

pub handle_refresh_token : Request → Store → Attempt Answer × Store
unfolding refresh_presented
handle_refresh_token q s = refresh_presented q q.refresh_token s
