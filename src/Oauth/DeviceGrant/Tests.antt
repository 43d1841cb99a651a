-- ===== src/Oauth/DeviceGrant/Tests.antt =====
-- A device grant at a concrete request, and at a poll that is too fast.
-- About src/oauth/token/device-code.ts.
use keyforge.Prelude.{ℕ, ◌≡◌, refl, true, none, some, [], ◌∷◌, string_eq, option_eq, nat_eq}
use keyforge.Security.Crypto.{hash_opaque_token}
use keyforge.Security.Crypto.Sample.{sample}
use keyforge.Device.{
  Row, approved, consume_approved_device, record_device_poll, record_device_slow_poll,
  get_device_by_device_code_hash,
}
use keyforge.Oauth.Errors.{returned, thrown, slow_down}
use keyforge.Oauth.Domain.{OauthClient, static_client}
use keyforge.Oauth.Resources.{
  resolve_resource_for_scopes, resolve_resource_record, named, looked_up, admitted,
  rejects_metadata, checked_scopes,
}
use keyforge.Oauth.Consent.{consent_covers_scopes, covers}
use keyforge.Oauth.PermissionRules.{
  resolve_permission_rules, resolve_matching, decide, least_priority, applies,
  permission_rule_matches, condition_uses_scope,
}
use keyforge.Oauth.UserTokenPolicy.{
  evaluate_user_token_access, judge_policy, check_scopes, scope_refusal,
}
use keyforge.Oauth.Scopes.{validate_requested_scopes, parse_scope_string, parse_scopes, fields}
use keyforge.RefreshTokens.Sample.{sample_draw, sample_store}
use keyforge.Oauth.Tokens.Sample.{
  sample_user, sample_view, sample_signer, sample_env, sample_directory,
}
use keyforge.Oauth.Tokens.{TokenResponse, TokenInput, add_refresh_token, issue_user_tokens}
use keyforge.Oauth.DeviceGrant.{
  State, Request, handle_device_code_grant, handle_code, poll_found, poll, answer_status, redeem,
  check_row, check_approval, settle_tokens,
}
use keyforge.Oauth.DeviceGrant.Granted.{IsReady, IsRedeemed, handle_device_code_grant-returned}

abbrev client : OauthClient
client = record {
  client_id = "tv";
  redirect_uris = [];
  allowed_scopes = "read" ∷ [];
  allowed_grant_types = "urn:ietf:params:oauth:grant-type:device_code" ∷ [];
  allowed_resources = "https://api.example" ∷ [];
  default_resource = none;
  enabled = true;
  registration_type = static_client;
  metadata_fingerprint = none;
}

abbrev row : Row
row = record {
  id = "dev_1";
  device_code_hash = "";
  user_code_hash = "u1";
  client_id = "tv";
  resource_uri = some "https://api.example";
  scope = "read";
  status = approved;
  user_id = some "usr_1";
  session_id = some "ses_1";
  auth_time = some 90;
  poll_interval_seconds = 5;
  poll_count = 1;
  last_polled_at = some 100;
  expires_at = 700;
  created_at = 95;
  approved_at = some 105;
  denied_at = none;
}

abbrev request_at : ℕ → Request
request_at now = record {
  platform = sample;
  parse = λ raw. none;
  env = sample_env;
  directory = sample_directory;
  before = sample_view;
  after = sample_view;
  signer = sample_signer;
  draw = sample_draw;
  client = client;
  device_code = some "code";
  clock = record { at_expiry = now; at_interval = now; at_poll = now; at_revocation = now };
}

abbrev start : State
start = record { rows = row ∷ []; tokens = sample_store; grants = [] }

abbrev response : TokenResponse
response = record {
  access_token = "at";
  expires_in = 900;
  scope = "read";
  id_token = none;
  refresh_token = none;
}

too_fast : handle_device_code_grant (request_at 103) start ≡ (
  thrown slow_down,
  record start {
    rows =
        record row { last_polled_at = some 103; poll_count = 2; poll_interval_seconds = 10 } ∷ [];
  },
)
unfolding handle_device_code_grant handle_code poll_found poll get_device_by_device_code_hash
    hash_opaque_token record_device_slow_poll
too_fast = refl

abbrev input : TokenInput
input = record {
  user = sample_user;
  client = client;
  scope = "read";
  resource = "https://api.example";
  nonce = none;
  auth_time = 90;
  session_id = none;
}

checks : check_row (λ raw. none) sample_env sample_directory client sample_view row ≡ returned input
unfolding check_row check_approval resolve_resource_for_scopes resolve_resource_record named
    looked_up admitted rejects_metadata checked_scopes validate_requested_scopes
    consent_covers_scopes covers evaluate_user_token_access judge_policy check_scopes scope_refusal
    resolve_permission_rules resolve_matching decide least_priority applies permission_rule_matches
    condition_uses_scope parse_scope_string parse_scopes fields
checks = refl

granted : (handle_device_code_grant (request_at 110) start).0 ≡ returned response
unfolding handle_device_code_grant handle_code poll_found poll answer_status redeem settle_tokens
    issue_user_tokens add_refresh_token get_device_by_device_code_hash hash_opaque_token
    record_device_poll consume_approved_device consent_covers_scopes covers parse_scope_string
    parse_scopes fields
granted = rw checks refl

handle_device_code_grant-returned_example :
    (r : Row) × IsReady (request_at 110) start r
    × IsRedeemed
        (request_at 110)
        start
        r
        (handle_device_code_grant (request_at 110) start).1
        response
handle_device_code_grant-returned_example =
    handle_device_code_grant-returned (request_at 110) start response granted
