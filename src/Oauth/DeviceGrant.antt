-- ===== src/Oauth/DeviceGrant.antt =====
-- src/oauth/token/device-code.ts. What the database answers before and after the tokens are issued are
-- two views, so that anything may happen to it in between. Audit records are not modelled.
pub mod Granted
pub mod Tests
use Prim.Native.Char.{code}
use Prim.Native.String
use keyforge.Prelude.{
  ℕ, ◌+◌, String, Bool, true, false, ◌&&◌, Option, none, some, List, ◌∷◌, ltb, leb, if◌then◌else◌,
  includes, ◌==◌, string_eq, option_eq, nat_eq,
}
use keyforge.Env.{Env, device_code_grant}
use keyforge.Security.Crypto.{Platform, hash_opaque_token}
use keyforge.Device.{
  Row, Status, pending, approved, denied, expired, consumed, get_device_by_device_code_hash,
  consume_approved_device, mark_device_expired, record_device_poll, record_device_slow_poll,
}
use keyforge.Oauth.Errors.{
  Attempt, returned, thrown, ◌>>=◌, ◌>>◌, require, invalid_request, unauthorized_client,
  invalid_grant, expired_token, slow_down, authorization_pending, access_denied,
}
use keyforge.Oauth.Domain.{OauthClient}
use keyforge.Oauth.Redirect.{ParseUrl}
use keyforge.Oauth.Scopes.{parse_scope_string}
use keyforge.Oauth.Tokens.{
  User, View, TokenResponse, TokenInput, Signer, Grant, available, session_is, is_consented,
  is_permitted, issue_user_tokens,
}
use keyforge.RefreshTokens.{Store, revoke_family, family_of, mark_refresh_token_revoked}
use keyforge.RefreshTokens.Issue.{Draw}
use keyforge.Oauth.Resources.{Directory, resolve_resource_for_scopes}

pub record State : Type 0 where
  pub rows : List Row
  pub tokens : Store
  -- The grants that were recorded, the last one first.
  pub grants : List Grant

-- The clock at the test of the expiry, at that of the interval, at the statement that follows, and at a
-- revocation of the tokens.
pub record Clock : Type 0 where
  pub at_expiry : ℕ
  pub at_interval : ℕ
  pub at_poll : ℕ
  pub at_revocation : ℕ

-- The columns that an approval sets.
pub record Approval : Type 0 where
  pub user_id : String
  pub resource : String
  pub session_id : String
  pub auth_time : ℕ

abbrev pub approval_of : Option String → Option String → Option String → Option ℕ → Attempt Approval
approval_of (some user_id) (some resource) (some session_id) (some auth_time) = returned (record {
  user_id = user_id;
  resource = resource;
  session_id = session_id;
  auth_time = auth_time;
})
approval_of _ _ _ _ = thrown invalid_grant

-- `split(".")[0]` of the refresh token, if there is one: the object and the row are revoked.
abbrev revoke_tokens : (now : ℕ) → Option String → Store → Store
revoke_tokens now none s = s
revoke_tokens now (some refresh_token) s =
    if family_of refresh_token == ""
    then s
    else record (revoke_family (family_of refresh_token) s) {
      rows = mark_refresh_token_revoked (family_of refresh_token) now s.rows;
    }

-- Is the interval since the last poll not over?
abbrev pub is_too_fast : ℕ → Option ℕ → ℕ → Bool
is_too_fast now none interval = false
is_too_fast now (some last) interval = ltb now (last + interval)

-- `issueDeviceTokens` up to the point at which the session is consumed.
module _ (parse : ParseUrl) (env : Env) (directory : Directory) (client : OauthClient)
    (view : View) where
  abbrev pub is_authorized : Approval → (user : User) → (scopes : List String) → Bool
  is_authorized approval user scopes =
      session_is view (some approval.session_id) user.id
      && is_consented env client view approval.user_id approval.resource scopes

  check_approval : Approval → (scopes : List String) → Attempt User
  check_approval approval scopes = do
    resolve_resource_for_scopes parse env directory client (some approval.resource) scopes
    user ← available (view.user_by_id approval.user_id)
    require (is_authorized approval user scopes) invalid_grant
    require (is_permitted env client view approval.user_id approval.resource scopes) invalid_grant
    returned user

  pub check_row : Row → Attempt TokenInput
  check_row row = do
    approval ← approval_of row.user_id row.resource_uri row.session_id row.auth_time
    user ← check_approval approval (parse_scope_string (some row.scope))
    returned (record {
      user = user;
      client = client;
      scope = row.scope;
      resource = approval.resource;
      nonce = none;
      auth_time = approval.auth_time;
      session_id = none;
    })

abbrev pub device_grant : TokenInput → Grant
device_grant input = record {
  user_id = input.user.id;
  client_id = input.client.client_id;
  session_id = none;
  scope = input.scope;
  resource = input.resource;
  grant_type = device_code_grant;
}

-- What happens once the tokens are issued: the session and the consent are read again.
settle_tokens :
    (still_authorized : Bool)
    → (now : ℕ) → TokenInput
    → Attempt TokenResponse
    → State
    → Attempt TokenResponse × State
settle_tokens still_authorized now input (thrown code) s = (thrown code, s)
settle_tokens true now input (returned response) s =
    (returned response, record s { grants = device_grant input ∷ s.grants })
settle_tokens false now input (returned response) s =
    (thrown invalid_grant, record s { tokens = revoke_tokens now response.refresh_token s.tokens })

-- A request of the token endpoint, with everything it reads.
pub record Request : Type 0 where
  pub platform : Platform
  pub parse : ParseUrl
  pub env : Env
  pub directory : Directory
  pub before : View
  pub after : View
  pub signer : Signer
  pub draw : Draw
  pub client : OauthClient
  pub device_code : Option String
  pub clock : Clock

-- The session is consumed before the tokens are issued; a caller that loses the race gets none.
redeem :
    Request
    → (still_authorized : TokenInput → Bool) → (id : String) → Attempt TokenInput
    → State
    → Attempt TokenResponse × State
unfolding settle_tokens
redeem q still_authorized id (thrown code) s = (thrown code, s)
redeem q still_authorized id (returned input) s =
    let (won, rows) = consume_approved_device id s.rows in
    let (response, tokens) = issue_user_tokens q.platform q.signer q.draw input s.tokens in
    if won
    then settle_tokens (still_authorized input) q.clock.at_revocation input response
        (record s { rows = rows; tokens = tokens })
    else (thrown invalid_grant, record s { rows = rows })

-- The second view is judged with the columns of the session.
abbrev pub still_authorized_for : Env → OauthClient → View → Row → TokenInput → Bool
still_authorized_for env client after row input =
    session_is after row.session_id input.user.id
    && is_consented env client after input.user.id input.resource
        (parse_scope_string (some row.scope))

-- The switch over the status, on the row that was read before the poll was recorded.
answer_status : Request → Row → Status → State → Attempt TokenResponse × State
unfolding check_row redeem
answer_status q row pending s = (thrown authorization_pending, s)
answer_status q row denied s = (thrown access_denied, s)
answer_status q row expired s = (thrown expired_token, s)
answer_status q row consumed s = (thrown invalid_grant, s)
answer_status q row approved s =
    redeem q (still_authorized_for q.env q.client q.after row) row.id
      (check_row q.parse q.env q.directory q.client q.before row) s

-- The checks on the times of a session that was found.
poll : Request → Row → State → Attempt TokenResponse × State
unfolding answer_status
poll q row s =
    if leb row.expires_at q.clock.at_expiry
    then (thrown expired_token, record s { rows = mark_device_expired row.id s.rows })
    else if is_too_fast q.clock.at_interval row.last_polled_at row.poll_interval_seconds
    then (
      thrown slow_down,
      record s { rows = record_device_slow_poll row.id q.clock.at_poll s.rows },
    )
    else answer_status q row row.status
        (record s { rows = record_device_poll row.id q.clock.at_poll s.rows })

poll_found : Request → Option Row → State → Attempt TokenResponse × State
unfolding poll
poll_found q none s = (thrown invalid_grant, s)
poll_found q (some row) s =
    if row.client_id == q.client.client_id then poll q row s else (thrown invalid_grant, s)

handle_code : Request → Option String → State → Attempt TokenResponse × State
unfolding poll_found
handle_code q none s = (thrown invalid_request, s)
handle_code q (some device_code) s =
    if includes q.client.allowed_grant_types device_code_grant
    then poll_found q
        (get_device_by_device_code_hash (hash_opaque_token q.platform device_code) s.rows) s
    else (thrown unauthorized_client, s)

pub handle_device_code_grant : Request → State → Attempt TokenResponse × State
unfolding handle_code
handle_device_code_grant q s = handle_code q q.device_code s
