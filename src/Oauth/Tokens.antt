-- ===== src/Oauth/Tokens.antt =====
-- src/oauth/token/issue.ts, and what the three grants of src/oauth/token/ share. What the queries answer
-- at one moment is a view; the signing of access and identity tokens is a parameter, and may throw.
pub mod Response
pub mod Sample
pub mod Tests
use keyforge.Prelude.{
  ℕ, String, Bool, true, false, ◌&&◌, Option, none, some, List, if◌then◌else◌, includes, ◌==◌,
  string_eq, option_eq,
}
use keyforge.Env.{Env}
use keyforge.Security.Crypto.{Platform}
use keyforge.Oauth.Errors.{Attempt, returned, thrown, ◌>>=◌, invalid_grant}
use keyforge.Oauth.Domain.{OauthClient}
use keyforge.Oauth.Scopes.{parse_scope_string}
use keyforge.Oauth.Consent.{ConsentRecord, consent_covers_scopes}
use keyforge.Oauth.UserTokenPolicy.{
  UserPermissionRules, AccessDecision, access_allowed, access_denied, evaluate_user_token_access,
}
use keyforge.RefreshTokens.{Store}
use keyforge.RefreshTokens.Issue.{IssueInput, Issued, Draw, issue_refresh_token}

pub record User : Type 0 where
  pub id : String
  pub disabled : Bool

pub record View : Type 0 where
  pub user_by_id : String → Option User
  -- The user of a session that is neither revoked nor past its expiry.
  pub session_user : (session_id : String) → Option String
  pub consent : (user_id client_id resource : String) → Option ConsentRecord
  pub user_permission_rules : (user_id : String) → UserPermissionRules

pub record TokenResponse : Type 0 where
  pub access_token : String
  pub expires_in : ℕ
  pub scope : String
  pub id_token : Option String
  pub refresh_token : Option String

pub record AccessInput : Type 0 where
  pub user_id : String
  pub client_id : String
  pub resource : String
  pub scope : String
  pub auth_time : ℕ

pub record IdInput : Type 0 where
  pub user : User
  pub client_id : String
  pub scopes : List String
  pub auth_time : ℕ
  pub nonce : Option String

pub record Signer : Type 0 where
  -- The token and the seconds until it expires.
  pub issue_user_access_token : AccessInput → Attempt (String × ℕ)
  pub issue_id_token : IdInput → Attempt String

-- `rememberMe` is never given, and access is always validated before.
pub record TokenInput : Type 0 where
  pub user : User
  pub client : OauthClient
  pub scope : String
  pub resource : String
  pub nonce : Option String
  pub auth_time : ℕ
  pub session_id : Option String

-- A row of the authorization grants.
pub record Grant : Type 0 where
  pub user_id : String
  pub client_id : String
  pub session_id : Option String
  pub scope : String
  pub resource : String
  pub grant_type : String

abbrev pub available : Option User → Attempt User
available none = thrown invalid_grant
available (some user) = if user.disabled then thrown invalid_grant else returned user

abbrev pub is_access_allowed : AccessDecision → Bool
is_access_allowed access_allowed = true
is_access_allowed (access_denied reason) = false

abbrev pub session_is : View → Option String → String → Bool
session_is view none user_id = false
session_is view (some session_id) user_id = view.session_user session_id == some user_id

module _ (env : Env) (client : OauthClient) (view : View) (user_id resource : String)
    (scopes : List String) where
  abbrev pub is_consented : Bool
  is_consented =
      consent_covers_scopes env (view.consent user_id client.client_id resource) scopes
        client.metadata_fingerprint

  abbrev pub is_permitted : Bool
  is_permitted = is_access_allowed (
      evaluate_user_token_access env (view.user_permission_rules user_id)
        (record { client_id = client.client_id; resource_uri = resource; scopes = scopes }))

-- An identity token is made if `openid` was granted.
abbrev pub id_token_for : Signer → (openid : Bool) → IdInput → Attempt (Option String)
id_token_for signer false input = returned none
id_token_for signer true input = do token ← signer.issue_id_token input; returned (some token)

-- The response without a refresh token.
abbrev pub signed_response :
    Signer → AccessInput → IdInput → (refresh_token : Option String) → Attempt TokenResponse
signed_response signer access id refresh_token = do
  token ← signer.issue_user_access_token access
  id_token ← id_token_for signer (includes id.scopes "openid") id
  returned (record {
    access_token = token.0;
    expires_in = token.1;
    scope = access.scope;
    id_token = id_token;
    refresh_token = refresh_token;
  })

abbrev pub access_input : TokenInput → AccessInput
access_input input = record {
  user_id = input.user.id;
  client_id = input.client.client_id;
  resource = input.resource;
  scope = input.scope;
  auth_time = input.auth_time;
}

abbrev pub id_input : TokenInput → IdInput
id_input input = record {
  user = input.user;
  client_id = input.client.client_id;
  scopes = parse_scope_string (some input.scope);
  auth_time = input.auth_time;
  nonce = input.nonce;
}

abbrev pub refresh_input : TokenInput → IssueInput
refresh_input input = record {
  user_id = input.user.id;
  client_id = input.client.client_id;
  session_id = input.session_id;
  resource = input.resource;
  scope = input.scope;
  auth_time = input.auth_time;
  remember_me = false;
}

abbrev pub attach : TokenResponse → Issued → Attempt TokenResponse
attach response refresh = returned (record response { refresh_token = some refresh.token })

abbrev pub is_refreshable : TokenInput → Bool
is_refreshable input =
    includes (parse_scope_string (some input.scope)) "offline_access"
    && includes input.client.allowed_grant_types "refresh_token"

-- The refresh token is made after the tokens that are signed.
unfoldable pub add_refresh_token :
    Platform → Draw → TokenInput → Attempt TokenResponse → Store → Attempt TokenResponse × Store
add_refresh_token p draw input (thrown code) s = (thrown code, s)
add_refresh_token p draw input (returned response) s =
    if is_refreshable input
    then (
      (issue_refresh_token p draw (refresh_input input) s).0 >>= attach response,
      (issue_refresh_token p draw (refresh_input input) s).1,
    )
    else (returned response, s)

unfoldable pub issue_user_tokens :
    Platform → Signer → Draw → TokenInput → Store → Attempt TokenResponse × Store
unfolding add_refresh_token
issue_user_tokens p signer draw input s =
    add_refresh_token p draw input
      (signed_response signer (access_input input) (id_input input) none) s
