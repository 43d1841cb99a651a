-- ===== src/Oauth/CodeGrant.antt =====
-- src/oauth/token/authorization-code.ts over the objects of src/do/AuthorizationCodeDO.ts. Audit records
-- are not modelled.
pub mod Granted
pub mod Once
pub mod Tests
use keyforge.Prelude.{
  ℕ, String, Option, none, some, List, ◌∷◌, if◌then◌else◌, ◌==◌, string_eq, option_eq,
}
use keyforge.Env.{Env}
use keyforge.Security.Crypto.{Platform, hash_opaque_token}
use keyforge.Do.OneTime.{Storage}
use keyforge.Do.AuthorizationCode.{
  Payload, Input, Outcome, found, refused, not_found, binding, resource, pkce, consume_if,
}
use keyforge.Oauth.Errors.{
  Attempt, returned, thrown, ◌>>=◌, ◌>>◌, require, invalid_request, invalid_grant,
}
use keyforge.Oauth.Domain.{OauthClient}
use keyforge.Oauth.Redirect.{ParseUrl}
use keyforge.Oauth.Scopes.{parse_scope_string}
use keyforge.Oauth.Resources.{Directory, resolve_resource_for_scopes}
use keyforge.Oauth.Tokens.{
  User, View, TokenResponse, TokenInput, Signer, Grant, available, session_is, is_consented,
  is_permitted, issue_user_tokens,
}
use keyforge.RefreshTokens.{Store}
use keyforge.RefreshTokens.Issue.{Draw}

-- `codes` is the object that each name, the hash of a code, stands for.
pub record State : Type 0 where
  pub codes : String → Storage Payload
  pub tokens : Store
  pub grants : List Grant

-- A request of the token endpoint, with everything it reads. `now` is the object's clock, in
-- milliseconds.
pub record Request : Type 0 where
  pub platform : Platform
  pub parse : ParseUrl
  pub env : Env
  pub directory : Directory
  pub view : View
  pub signer : Signer
  pub draw : Draw
  pub client : OauthClient
  pub code : Option String
  pub redirect_uri : Option String
  pub code_verifier : Option String
  pub resource : Option String
  pub now : ℕ

abbrev pub presentation : Request → (redirect_uri code_verifier : String) → Input
presentation q redirect_uri code_verifier = record {
  issuer = q.env.issuer;
  client_id = q.client.client_id;
  redirect_uri = redirect_uri;
  resource = q.resource;
  metadata_fingerprint = q.client.metadata_fingerprint;
  code_verifier = code_verifier;
}

-- A call of the object that `name` stands for leaves its storage.
abbrev pub put :
    (name : String) → Storage Payload → (String → Storage Payload) → String → Storage Payload
put name storage codes other = if other == name then storage else codes other

abbrev pub grant_input : OauthClient → Payload → User → TokenInput
grant_input client grant user = record {
  user = user;
  client = client;
  scope = grant.scope;
  resource = grant.resource;
  nonce = grant.nonce;
  auth_time = grant.auth_time;
  session_id = some grant.session_id;
}

-- The checks on the payload, in the order in which the handler throws.
check_grant : Request → Payload → Attempt TokenInput
check_grant q grant = do
  user ← available (q.view.user_by_id grant.user_id)
  require (session_is q.view (some grant.session_id) user.id) invalid_grant
  require
      (is_consented q.env q.client q.view grant.user_id grant.resource
        (parse_scope_string (some grant.scope)))
      invalid_grant
  require
      (is_permitted q.env q.client q.view grant.user_id grant.resource
        (parse_scope_string (some grant.scope)))
      invalid_grant
  resolve_resource_for_scopes q.parse q.env q.directory q.client (some grant.resource)
      (parse_scope_string (some grant.scope))
  returned (grant_input q.client grant user)

abbrev pub code_grant : TokenInput → Grant
code_grant input = record {
  user_id = input.user.id;
  client_id = input.client.client_id;
  session_id = input.session_id;
  scope = input.scope;
  resource = input.resource;
  grant_type = "authorization_code";
}

-- The grant is recorded once the tokens are made.
record_grant : TokenInput → Attempt TokenResponse → State → Attempt TokenResponse × State
record_grant input (thrown code) s = (thrown code, s)
record_grant input (returned response) s =
    (returned response, record s { grants = code_grant input ∷ s.grants })

issue_checked : Request → Attempt TokenInput → State → Attempt TokenResponse × State
unfolding record_grant
issue_checked q (thrown code) s = (thrown code, s)
issue_checked q (returned input) s =
    let (response, tokens) = issue_user_tokens q.platform q.signer q.draw input s.tokens in
    record_grant input response (record s { tokens = tokens })

abbrev missing_resource : Option String → Attempt TokenResponse
missing_resource none = thrown invalid_request
missing_resource (some presented) = thrown invalid_grant

-- What the object answers; the audit record of a failed proof is left out.
answer_code : Request → Outcome → State → Attempt TokenResponse × State
unfolding check_grant issue_checked
answer_code q (refused not_found) s = (thrown invalid_grant, s)
answer_code q (refused binding) s = (thrown invalid_grant, s)
answer_code q (refused resource) s = (missing_resource q.resource, s)
answer_code q (refused pkce) s = (thrown invalid_grant, s)
answer_code q (found grant) s = issue_checked q (check_grant q grant) s

exchange :
    Request → (code redirect_uri code_verifier : String) → State → Attempt TokenResponse × State
unfolding answer_code
exchange q code redirect_uri code_verifier s =
    let name = hash_opaque_token q.platform code in
    let (outcome, storage) =
      consume_if q.platform q.env (presentation q redirect_uri code_verifier) q.now
        (s.codes name) in
    answer_code q outcome (record s { codes = put name storage s.codes })

exchange_presented :
    Request
    → (code redirect_uri code_verifier : Option String) → State
    → Attempt TokenResponse × State
unfolding exchange
exchange_presented q (some code) (some redirect_uri) (some code_verifier) s =
    exchange q code redirect_uri code_verifier s
exchange_presented q _ _ _ s = (thrown invalid_request, s)

pub handle_authorization_code : Request → State → Attempt TokenResponse × State
unfolding exchange_presented
handle_authorization_code q s = exchange_presented q q.code q.redirect_uri q.code_verifier s
