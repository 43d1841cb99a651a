-- ===== src/Oauth/RefreshGrant/Tests.antt =====
-- One refresh, with validation on.
-- About src/oauth/token/refresh-token.ts.
use keyforge.Prelude.{◌≡◌, refl, none, some, [], ◌∷◌, string_eq, option_eq, nat_eq}
use keyforge.Security.Crypto.{hash_opaque_token}
use keyforge.Security.Crypto.Sample.{sample}
use keyforge.Oauth.Errors.{returned}
use keyforge.Oauth.Resources.{
  resolve_resource_for_scopes, resolve_resource_record, named, looked_up, admitted,
  rejects_metadata, checked_scopes,
}
use keyforge.Oauth.Consent.{consent_covers_scopes, covers}
use keyforge.Oauth.PermissionRules.{
  resolve_permission_rules, resolve_matching, decide, least_priority, applies,
  permission_rule_matches, condition_uses_scope,
}
use keyforge.Oauth.UserTokenPolicy.{
  evaluate_user_token_access, judge_policy, check_scopes, scope_refusal,
}
use keyforge.Oauth.Scopes.{
  validate_requested_scopes, parse_scope_string, parse_scopes, fields, serialize_scopes,
}
use keyforge.Do.RefreshFamily.{advance}
use keyforge.RefreshTokens.{family_of, get_refresh_token_by_hash, get_refresh_token_by_family_id}
use keyforge.RefreshTokens.Rotate.Sample.{draw, store, handed, rotates_once}
use keyforge.Oauth.Tokens.{TokenResponse}
use keyforge.Oauth.Tokens.Sample.{
  sample_client, sample_view, sample_signer, sample_env, sample_directory,
}
use keyforge.Oauth.RefreshGrant.{
  Request, tokens, lookup_presented_family, check_authorization, check_row, check_request,
  issue_rotated_tokens, answer_outcome, refresh, refresh_presented, handle_refresh_token,
}
use keyforge.Oauth.RefreshGrant.Granted.{IsRefreshed, handle_refresh_token-returned}

abbrev request : Request
request = record {
  platform = sample;
  parse = λ raw. none;
  env = sample_env;
  directory = sample_directory;
  before = sample_view;
  after = sample_view;
  signer = sample_signer;
  draw = draw;
  client = sample_client;
  refresh_token = some "rtf_2.r";
  resource = none;
  scope = none;
  now = 100;
}

abbrev response : TokenResponse
response = record {
  access_token = "at";
  expires_in = 900;
  scope = handed.scope;
  id_token = none;
  refresh_token = some handed.token;
}

checks : check_request request "rtf_2.r" store.rows ≡ returned ("read" ∷ [])
unfolding check_request check_row check_authorization lookup_presented_family
    get_refresh_token_by_hash get_refresh_token_by_family_id family_of hash_opaque_token
    resolve_resource_for_scopes resolve_resource_record named looked_up admitted rejects_metadata
    checked_scopes validate_requested_scopes consent_covers_scopes covers evaluate_user_token_access
    judge_policy check_scopes scope_refusal resolve_permission_rules resolve_matching decide
    least_priority applies permission_rule_matches condition_uses_scope parse_scope_string
    parse_scopes fields
checks = refl

refreshes : (handle_refresh_token request store).0 ≡ returned (tokens response)
unfolding handle_refresh_token refresh_presented refresh answer_outcome issue_rotated_tokens
    serialize_scopes advance parse_scope_string parse_scopes fields
refreshes = rw (checks, rotates_once) refl

handle_refresh_token-returned_example :
    IsRefreshed request store (handle_refresh_token request store).1 response
handle_refresh_token-returned_example =
    handle_refresh_token-returned request store response refreshes
