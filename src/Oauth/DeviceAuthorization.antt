-- ===== src/Oauth/DeviceAuthorization.antt =====
-- src/oauth/device-authorization.ts with src/oauth/user-code.ts. The random codes and identifier are
-- arguments; audit records and the addresses in the answer are not modelled.
pub mod Started
pub mod Tests
use Prim.Native.Char.{code}
use Prim.Native.String
use keyforge.Prelude.{
  ℕ, ◌+◌, String, Bool, true, false, ◌||◌, Option, none, some, List, [], ◌∷◌, if◌then◌else◌,
  includes, string_eq, option_eq, is_upper, is_digit, nat_eq,
}
use keyforge.Env.{Env, device_code_grant, device_poll_interval_seconds}
use keyforge.Env.TokenTtl.{device_code}
use keyforge.Security.Crypto.{Platform, hash_opaque_token}
use keyforge.Device.{Row, CreateInput, create_device_session}
use keyforge.Oauth.Errors.{
  Attempt, returned, thrown, ◌>>=◌, ◌>>◌, require, unauthorized_client, temporarily_unavailable,
  server_error,
}
use keyforge.Oauth.Domain.{OauthClient}
use keyforge.Oauth.Redirect.{ParseUrl}
use keyforge.Oauth.Scopes.{parse_scope_string, serialize_scopes, validate_requested_scopes}
use keyforge.Oauth.Resources.{Directory, resolve_resource_for_scopes}

-- A request of the endpoint, with everything it reads.
pub record Request : Type 0 where
  pub platform : Platform
  pub parse : ParseUrl
  pub env : Env
  pub directory : Directory
  pub client : OauthClient
  pub confidential : Bool
  pub scope : Option String
  pub resource : Option String
  -- `toUpperCase`.
  pub to_upper_case : String → String
  pub random_device_code : String
  pub random_user_code : String
  pub random_id : String
  pub now : ℕ

pub record Answer : Type 0 where
  pub device_code : String
  pub user_code : String
  pub expires_in : ℕ
  pub interval : ℕ

-- `replace(/[^A-Z0-9]/g, "")`.
strip_separators : String → String
strip_separators String.[] = String.[]
strip_separators (String.◌∷◌ c s) =
    let rest = strip_separators s in
    if is_upper (code c) || is_digit (code c) then String.◌∷◌ c rest else rest

normalize_user_code : (to_upper_case : String → String) → String → String
unfolding strip_separators
normalize_user_code to_upper_case input = strip_separators (to_upper_case input)

-- Without a requested scope the client gets all of its own.
pub scopes_for : OauthClient → (requested : List String) → Attempt (List String)
scopes_for client [] = returned client.allowed_scopes
scopes_for client (scope ∷ scopes) =
    validate_requested_scopes (scope ∷ scopes) client.allowed_scopes

pub device_input : Request → (scopes : List String) → (resource : String) → CreateInput
unfolding normalize_user_code
device_input q scopes resource = record {
  device_code_hash = hash_opaque_token q.platform q.random_device_code;
  user_code_hash =
      hash_opaque_token q.platform (normalize_user_code q.to_upper_case q.random_user_code);
  client_id = q.client.client_id;
  resource_uri = some resource;
  scope = serialize_scopes scopes;
  expires_at = q.now + device_code;
  poll_interval_seconds = device_poll_interval_seconds;
  max_active_sessions = if q.confidential then 250 else 1000;
}

prepare : Request → Attempt CreateInput
unfolding device_input
prepare q = do
  require (includes q.client.allowed_grant_types device_code_grant) unauthorized_client
  scopes ← scopes_for q.client (parse_scope_string q.scope)
  resource ← resolve_resource_for_scopes q.parse q.env q.directory q.client q.resource scopes
  returned (device_input q scopes resource)

-- A statement that fails on a key is an internal error.
finish : Request → List Row → Option (Bool × List Row) → Attempt Answer × List Row
finish q rows none = (thrown server_error, rows)
finish q rows (some (false, rows')) = (thrown temporarily_unavailable, rows')
finish q rows (some (true, rows')) = (
  returned (record {
    device_code = q.random_device_code;
    user_code = q.random_user_code;
    expires_in = device_code;
    interval = device_poll_interval_seconds;
  }),
  rows',
)

create : Request → List Row → Attempt CreateInput → Attempt Answer × List Row
unfolding finish
create q rows (thrown e) = (thrown e, rows)
create q rows (returned input) = finish q rows (create_device_session q.random_id input q.now rows)

pub handle_device_authorization : Request → List Row → Attempt Answer × List Row
unfolding create prepare
handle_device_authorization q rows = create q rows (prepare q)
