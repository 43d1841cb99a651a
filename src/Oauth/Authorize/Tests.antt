-- ===== src/Oauth/Authorize/Tests.antt =====
-- A valid authorization request, and the code that it leads to.
-- About src/oauth/authorize.ts.
use keyforge.Prelude.{
  ◌+◌, ◌*◌, ◌≡◌, ◌≤◌, ◌↔◌, String, refl, ap, true, false, none, some, [], ◌∷◌, if◌then◌else◌, ◌==◌,
  string_eq, option_eq, nat_eq, codes,
}
use keyforge.Env.TokenTtl
use keyforge.Security.Crypto.Sample.{sample, sample-IsEncoding}
use keyforge.Do.OneTime.{empty}
use keyforge.Do.AuthorizationCode.{Input, found, consume_if}
use keyforge.Do.AuthorizationCode.Consume.{IsEntitled}
use keyforge.Oauth.Domain.{OauthClient, OauthResource, static_client, disabled}
use keyforge.Oauth.Pkce.{is_valid_s256_challenge}
use keyforge.Oauth.Redirect.{is_registered_redirect_uri}
use keyforge.Oauth.RequestLimits.{
  is_valid_oauth_client_id, oauth_parameter_maximum_bytes, validate_oauth_parameter, validate_from,
  validate_oauth_parameter_set,
}
use keyforge.Oauth.Scopes.{parse_scope_string, parse_scopes, fields, validate_requested_scopes}
use keyforge.Oauth.Resources.{
  named, rejects_metadata, admitted, looked_up, resolve_resource_record, checked_scopes,
  resolve_resource_for_scopes,
}
use keyforge.Oauth.Authorize.{
  client_found, Reads, Query, AuthorizeParams, AuthorizationSubject, ok, parse_prompts,
  parse_max_age, authorized_params, validate_prompts, validate_registered, validate_redirect,
  validate_client, validate_client_id, validate_authorize_request, payload_for,
}
use keyforge.Oauth.Authorize.Trusted.{target, IsTrusted, validate_authorize_request-IsTrusted}
use keyforge.Oauth.Authorize.Valid.{IsValid, validate_authorize_request-IsValid}
use keyforge.Oauth.Authorize.Code.{issued_storage, issue_authorization_code-consume_if}

abbrev client : OauthClient
client = record {
  client_id = "app";
  redirect_uris = "https://app.example/cb" ∷ [];
  allowed_scopes = "openid" ∷ "read" ∷ [];
  allowed_grant_types = "authorization_code" ∷ [];
  allowed_resources = "https://api.example" ∷ [];
  default_resource = some "https://api.example";
  enabled = true;
  registration_type = static_client;
  metadata_fingerprint = none;
}

abbrev api : OauthResource
api = record {
  resource_uri = "https://api.example";
  name = "API";
  allowed_scopes = "read" ∷ [];
  enabled = true;
  mcp_enabled = false;
  metadata_client_policy = disabled;
}

abbrev reads : Reads
reads = record {
  platform = record sample { utf8 = codes };
  parse = λ raw. none;
  env = record { environment = "production"; yolo_mode = none; issuer = "https://id.example" };
  directory = record {
    resource_by_uri = λ uri. if uri == "https://api.example" then some api else none;
    is_metadata_client_approved = λ client_id uri. false;
  };
  resolve_authorization_client = λ client_id resource. client_found (some client);
}

abbrev challenge : String
challenge = "AAAAAAAAAAAAAAAAAAAAAAAAAAAAAAAAAAAAAAAAAAA"

abbrev query : Query
query =
    ("client_id", "app")
    ∷ ("redirect_uri", "https://app.example/cb")
    ∷ ("response_type", "code")
    ∷ ("scope", "read")
    ∷ ("code_challenge", challenge)
    ∷ ("code_challenge_method", "S256")
    ∷ []

abbrev params : AuthorizeParams
params = record {
  client_id = "app";
  client = client;
  redirect_uri = "https://app.example/cb";
  scopes = "read" ∷ [];
  resource = "https://api.example";
  state = none;
  nonce = none;
  code_challenge = challenge;
  prompts = [];
  max_age = none;
}

validates : validate_authorize_request reads query ≡ ok params
unfolding validate_authorize_request validate_client_id validate_client validate_redirect
    validate_registered validate_prompts authorized_params parse_prompts parse_max_age
    is_valid_s256_challenge is_registered_redirect_uri validate_oauth_parameter_set validate_from
    validate_oauth_parameter oauth_parameter_maximum_bytes is_valid_oauth_client_id
    parse_scope_string parse_scopes fields validate_requested_scopes resolve_resource_for_scopes
    resolve_resource_record named looked_up admitted rejects_metadata checked_scopes
validates = refl

leads_back : target (validate_authorize_request reads query) ≡ some "https://app.example/cb"
leads_back = ap target validates

validate_authorize_request-IsTrusted_example :
    (validate_oauth_parameter_set reads.platform reads.parse query ≡ none)
    × ((client_id : String) × (client : OauthClient) × IsTrusted reads query client_id client
          "https://app.example/cb")
validate_authorize_request-IsTrusted_example =
    validate_authorize_request-IsTrusted reads query "https://app.example/cb" refl leads_back

validate_authorize_request-IsValid_example : IsValid reads query params
validate_authorize_request-IsValid_example =
    validate_authorize_request-IsValid reads query params refl validates

abbrev subject : AuthorizationSubject
subject = record { user_id = "usr_1"; session_id = "ses_1"; auth_time = 90 }

abbrev encoded : Reads
encoded = record reads { platform = sample }

abbrev input : Input
input = record {
  issuer = "https://id.example";
  client_id = "app";
  redirect_uri = "https://app.example/cb";
  resource = none;
  metadata_fingerprint = none;
  code_verifier = "v";
}

issue_authorization_code-consume_if_example :
    ((consume_if sample encoded.env input 2000
        (issued_storage encoded params subject "c" 1000 (λ name. empty))).0
      ≡ found (payload_for encoded params subject))
    ↔ ((payload_for encoded params subject ≡ payload_for encoded params subject)
        × 2000 ≤ 1000 + TokenTtl.authorization_code * 1000
        × IsEntitled sample encoded.env (payload_for encoded params subject) input)
issue_authorization_code-consume_if_example =
    issue_authorization_code-consume_if encoded params subject "c" 1000 (λ name. empty) input 2000
      (payload_for encoded params subject) sample-IsEncoding
