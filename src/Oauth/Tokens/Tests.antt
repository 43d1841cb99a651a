-- ===== src/Oauth/Tokens/Tests.antt =====
-- A response for offline access.
-- About src/oauth/token/issue.ts.
use keyforge.Prelude.{◌≡◌, refl, false, none, some, string_eq, option_eq, nat_eq}
use keyforge.Security.Crypto.Sample.{sample}
use keyforge.Oauth.Errors.{returned}
use keyforge.RefreshTokens.Sample.{sample_draw, sample_store}
use keyforge.Oauth.Scopes.{parse_scope_string, parse_scopes, fields}
use keyforge.Oauth.Tokens.{TokenInput, TokenResponse, add_refresh_token, issue_user_tokens}
use keyforge.Oauth.Tokens.Sample.{sample_client, sample_signer}

abbrev input : TokenInput
input = record {
  user = record { id = "usr_1"; disabled = false };
  client = sample_client;
  scope = "read openid";
  resource = "https://api.example";
  nonce = none;
  auth_time = 90;
  session_id = some "ses_1";
}

abbrev response : TokenResponse
response = record {
  access_token = "at";
  expires_in = 900;
  scope = "read openid";
  id_token = some "id";
  refresh_token = none;
}

answers :
    (issue_user_tokens sample sample_signer sample_draw input sample_store).0 ≡ returned response
unfolding issue_user_tokens add_refresh_token parse_scope_string parse_scopes fields
answers = refl
