-- ===== src/Oauth/DeviceAuthorization/Tests.antt =====
-- Device authorization at a concrete request.
-- About src/oauth/device-authorization.ts.
use keyforge.Prelude.{
  String, ◌≡◌, refl, true, false, none, some, List, [], ◌∷◌, string_eq, option_eq, nat_eq,
}
use keyforge.Security.Crypto.Sample.{sample}
use keyforge.Oauth.Errors.{thrown, unauthorized_client}
use keyforge.Oauth.Domain.{OauthClient, static_client}
use keyforge.Oauth.DeviceAuthorization.{
  Request, normalize_user_code, strip_separators, handle_device_authorization, create, prepare,
}
use keyforge.Oauth.DeviceAuthorization.Started.{Starts, handle_device_authorization-Starts}

abbrev client : List String → OauthClient
client grant_types = record {
  client_id = "tv";
  redirect_uris = [];
  allowed_scopes = "read" ∷ [];
  allowed_grant_types = grant_types;
  allowed_resources = "https://api.example" ∷ [];
  default_resource = some "https://api.example";
  enabled = true;
  registration_type = static_client;
  metadata_fingerprint = none;
}

abbrev request : List String → Request
request grant_types = record {
  platform = sample;
  parse = λ raw. none;
  env = record { environment = "dev"; yolo_mode = some "true"; issuer = "https://id.example" };
  directory = record { resource_by_uri = λ uri. none; is_metadata_client_approved = λ c r. false };
  client = client grant_types;
  confidential = false;
  scope = none;
  resource = none;
  to_upper_case = λ s. s;
  random_device_code = "secret";
  random_user_code = "ABCD-EFGH";
  random_id = "dev_1";
  now = 100;
}

separators : normalize_user_code (λ s. s) "AB-C 2" ≡ "ABC2"
unfolding normalize_user_code strip_separators
separators = refl

no_grant : handle_device_authorization (request []) [] ≡ (thrown unauthorized_client, [])
unfolding handle_device_authorization create prepare
no_grant = refl

handle_device_authorization-Starts_example :
    Starts (request ("urn:ietf:params:oauth:grant-type:device_code" ∷ [])) [] (
      handle_device_authorization
        (request ("urn:ietf:params:oauth:grant-type:device_code" ∷ []))
        [])
handle_device_authorization-Starts_example =
    handle_device_authorization-Starts
      (request ("urn:ietf:params:oauth:grant-type:device_code" ∷ [])) []
