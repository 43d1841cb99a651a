-- ===== src/Oauth/CodeGrant/Tests.antt =====
-- One exchange, with validation on.
-- About src/oauth/token/authorization-code.ts.
use keyforge.Prelude.{
  ◌≡◌, ◌≤◌, refl, inl, inr, true, false, String, none, some, [], ◌∷◌, length, string_eq, option_eq,
  nat_eq,
}
use keyforge.Security.Crypto.{hash_opaque_token}
use keyforge.Security.Crypto.Sample.{sample, sample-IsEncoding}
use keyforge.Oauth.Pkce.{is_valid_code_verifier, compute_s256_challenge}
use keyforge.Do.OneTime.{Storage}
use keyforge.Do.AuthorizationCode.{Payload, found, consume_if}
use keyforge.Do.AuthorizationCode.Consume.{consume_if-found_iff}
use keyforge.Oauth.Errors.{returned}
use keyforge.Oauth.Resources.{
  resolve_resource_for_scopes, resolve_resource_record, named, looked_up, admitted,
  rejects_metadata, checked_scopes,
}
use keyforge.Oauth.Consent.{consent_covers_scopes, covers}
use keyforge.Oauth.PermissionRules.{
  resolve_permission_rules, resolve_matching, decide, least_priority, applies,
  permission_rule_matches, condition_uses_scope,
}
use keyforge.Oauth.UserTokenPolicy.{
  evaluate_user_token_access, judge_policy, check_scopes, scope_refusal,
}
use keyforge.Oauth.Scopes.{validate_requested_scopes, parse_scope_string, parse_scopes, fields}
use keyforge.RefreshTokens.Sample.{sample_draw, sample_store}
use keyforge.Oauth.Tokens.{TokenResponse, add_refresh_token, issue_user_tokens}
use keyforge.Oauth.Tokens.Sample.{
  sample_client, sample_user, sample_view, sample_signer, sample_env, sample_directory,
}
use keyforge.Oauth.CodeGrant.{
  State, Request, presentation, grant_input, check_grant, record_grant, issue_checked, answer_code,
  exchange, exchange_presented, handle_authorization_code,
}
use keyforge.Oauth.CodeGrant.Granted.{IsExchanged, handle_authorization_code-returned}
use keyforge.Oauth.CodeGrant.Once.{responses, responses_once}

abbrev verifier : String
verifier = "dBjftJeZ4CVP-mB92K27uhbUJU1p1r_wW1gFWFOEjXk"

abbrev payload : Payload
payload = record {
  issuer = "https://id.example";
  client_id = "app";
  user_id = "usr_1";
  redirect_uri = "https://app.example/cb";
  scope = "read";
  resource = "https://api.example";
  resource_required = false;
  metadata_fingerprint = none;
  code_challenge = compute_s256_challenge sample verifier;
  nonce = none;
  auth_time = 90;
  session_id = "ses_1";
}

abbrev stored : Storage Payload
stored = record {
  consumed = some false;
  expires_at = some 170000;
  value = some payload;
  alarm_at = some 230000;
}

abbrev state : State
state = record { codes = λ name. stored; tokens = sample_store; grants = [] }

abbrev request : Request
request = record {
  platform = sample;
  parse = λ raw. none;
  env = sample_env;
  directory = sample_directory;
  view = sample_view;
  signer = sample_signer;
  draw = sample_draw;
  client = sample_client;
  code = some "c";
  redirect_uri = some "https://app.example/cb";
  code_verifier = some verifier;
  resource = none;
  now = 110000;
}

abbrev response : TokenResponse
response = record {
  access_token = "at";
  expires_in = 900;
  scope = "read";
  id_token = none;
  refresh_token = none;
}

verifier_valid : is_valid_code_verifier verifier ≡ true
unfolding is_valid_code_verifier
verifier_valid = refl

consumes :
    (consume_if sample sample_env
      (presentation request "https://app.example/cb" verifier)
      110000
      stored).0
    ≡ found payload
consumes =
    (consume_if-found_iff sample sample_env (presentation request "https://app.example/cb" verifier)
        110000 stored payload sample-IsEncoding).1
      (
        record { fresh = refl; in_time = refl; stored = refl },
        inr (
          record {
            issuer = refl;
            client_id = refl;
            redirect_uri = refl;
            metadata_fingerprint = refl;
          },
          inl (refl, refl),
          record { valid = verifier_valid; same = refl },
        ),
      )

checks : check_grant request payload ≡ returned (grant_input sample_client payload sample_user)
unfolding check_grant resolve_resource_for_scopes resolve_resource_record named looked_up admitted
    rejects_metadata checked_scopes validate_requested_scopes consent_covers_scopes covers
    evaluate_user_token_access judge_policy check_scopes scope_refusal resolve_permission_rules
    resolve_matching decide least_priority applies permission_rule_matches condition_uses_scope
    parse_scope_string parse_scopes fields
checks = refl

exchanges : (handle_authorization_code request state).0 ≡ returned response
unfolding handle_authorization_code exchange_presented exchange answer_code issue_checked
    record_grant issue_user_tokens add_refresh_token parse_scope_string parse_scopes fields
exchanges = rw (consumes, checks) refl

handle_authorization_code-returned_example :
    IsExchanged request state (handle_authorization_code request state).1 response
handle_authorization_code-returned_example =
    handle_authorization_code-returned request state response sample-IsEncoding exchanges

responses_once_example :
    length (responses (hash_opaque_token sample "c") (request ∷ request ∷ []) state) ≤ 1
responses_once_example =
    responses_once (hash_opaque_token sample "c") (request ∷ request ∷ []) state
