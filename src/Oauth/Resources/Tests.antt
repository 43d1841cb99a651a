-- ===== src/Oauth/Resources/Tests.antt =====
-- Grants of resources at a concrete client.
-- About src/oauth/resources.ts.
use keyforge.Prelude.{
  ◌≡◌, refl, ◌↔◌, true, false, none, some, [], ◌∷◌, if◌then◌else◌, ◌==◌, string_eq, option_eq,
  nat_eq,
}
use keyforge.Env.{Env}
use keyforge.Oauth.Errors.{returned, thrown, invalid_target}
use keyforge.Oauth.Domain.{OauthClient, OauthResource, static_client, disabled}
use keyforge.Oauth.Redirect.{ParseUrl}
use keyforge.Oauth.Scopes.{validate_requested_scopes}
use keyforge.Oauth.Resources.{
  Directory, named, rejects_metadata, admitted, looked_up, resolve_resource_record, checked_scopes,
  resolve_resource_for_scopes,
}
use keyforge.Oauth.Resources.Grantable.{IsGrantable, resolve_resource_for_scopes_iff}

abbrev production : Env
production = record { environment = "production"; yolo_mode = none; issuer = "https://id.example" }

abbrev client : OauthClient
client = record {
  client_id = "app";
  redirect_uris = "https://app.example/cb" ∷ [];
  allowed_scopes = "openid" ∷ "read" ∷ [];
  allowed_grant_types = "authorization_code" ∷ [];
  allowed_resources = "https://api.example" ∷ [];
  default_resource = some "https://api.example";
  enabled = true;
  registration_type = static_client;
  metadata_fingerprint = none;
}

abbrev registered_api : OauthResource
registered_api = record {
  resource_uri = "https://api.example";
  name = "API";
  allowed_scopes = "read" ∷ [];
  enabled = true;
  mcp_enabled = false;
  metadata_client_policy = disabled;
}

abbrev directory : Directory
directory = record {
  resource_by_uri = λ uri. if uri == "https://api.example" then some registered_api else none;
  is_metadata_client_approved = λ client_id uri. false;
}

abbrev parse : ParseUrl
parse raw = none

default_granted :
    resolve_resource_for_scopes parse production directory client none ("openid" ∷ "read" ∷ [])
    ≡ returned "https://api.example"
unfolding resolve_resource_for_scopes resolve_resource_record named looked_up admitted
    rejects_metadata checked_scopes validate_requested_scopes
default_granted = refl

foreign_refused :
    resolve_resource_for_scopes parse production directory client (some "https://other.example") []
    ≡ thrown invalid_target
unfolding resolve_resource_for_scopes resolve_resource_record named looked_up admitted
    rejects_metadata checked_scopes validate_requested_scopes
foreign_refused = refl

resolve_resource_for_scopes_iff_example :
    (resolve_resource_for_scopes parse production directory client none ("openid" ∷ "read" ∷ [])
      ≡ returned "https://api.example")
    ↔ IsGrantable parse production directory client none
        ("openid" ∷ "read" ∷ [])
        "https://api.example"
resolve_resource_for_scopes_iff_example =
    resolve_resource_for_scopes_iff parse production directory client none ("openid" ∷ "read" ∷ [])
      "https://api.example" refl
