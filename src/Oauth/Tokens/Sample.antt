-- ===== src/Oauth/Tokens/Sample.antt =====
-- A client, a user who consents and whom a policy allows to read, a resource, and a signer.
-- About src/oauth/token/issue.ts.
use keyforge.Prelude.{
  String, true, false, none, some, List, [], ◌∷◌, if◌then◌else◌, ◌==◌, string_eq,
}
use keyforge.Env.{Env}
use keyforge.Oauth.Domain.{OauthClient, OauthResource, static_client, disabled}
use keyforge.Oauth.PermissionRules.{Condition, single, api, scope, equals, allow, EffectiveRule}
use keyforge.Oauth.Errors.{returned}
use keyforge.Oauth.Resources.{Directory}
use keyforge.Oauth.Tokens.{User, View, Signer}

abbrev pub sample_client : OauthClient
sample_client = record {
  client_id = "app";
  redirect_uris = [];
  allowed_scopes = "read" ∷ [];
  allowed_grant_types = "authorization_code" ∷ "refresh_token" ∷ [];
  allowed_resources = "https://api.example" ∷ [];
  default_resource = none;
  enabled = true;
  registration_type = static_client;
  metadata_fingerprint = none;
}

abbrev sample_rule : String → Condition → EffectiveRule
sample_rule id condition = record {
  id = id;
  effect = allow;
  condition = condition;
  group_id = "grp_1";
  group_name = "readers";
  priority = 10;
}

abbrev pub sample_rules : List EffectiveRule
sample_rules =
    sample_rule "a" (single api equals "https://api.example")
    ∷ sample_rule "b" (single scope equals "read")
    ∷ []

abbrev pub sample_user : User
sample_user = record { id = "usr_1"; disabled = false }

abbrev pub sample_view : View
sample_view = record {
  user_by_id = λ id. some sample_user;
  session_user = λ id. some "usr_1";
  consent =
      λ user_id client_id resource. some (record { scope = "read"; metadata_fingerprint = none });
  user_permission_rules = λ id. record { valid = true; admin_member = false; rules = sample_rules };
}

abbrev pub sample_signer : Signer
sample_signer = record {
  issue_user_access_token = λ input. returned ("at", 900);
  issue_id_token = λ input. returned "id";
}

abbrev pub sample_env : Env
sample_env = record { environment = "production"; yolo_mode = none; issuer = "https://id.example" }

abbrev pub sample_resource : OauthResource
sample_resource = record {
  resource_uri = "https://api.example";
  name = "API";
  allowed_scopes = "read" ∷ [];
  enabled = true;
  mcp_enabled = false;
  metadata_client_policy = disabled;
}

abbrev pub sample_directory : Directory
sample_directory = record {
  resource_by_uri = λ uri. if uri == "https://api.example" then some sample_resource else none;
  is_metadata_client_approved = λ c r. false;
}
