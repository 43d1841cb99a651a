-- ===== src/Oauth/Domain.antt =====
-- The clients and resources of src/types/domain.ts, with the fields that the model reads.
use keyforge.Prelude.{String, Bool, true, false, Option, List, string_eq, option_eq, nat_eq}

pub data RegistrationType : Type 0 where
  static_client client_id_metadata : RegistrationType

pub data MetadataClientPolicy : Type 0 where
  disabled consent_required admin_approved : MetadataClientPolicy

pub record OauthClient : Type 0 where
  pub client_id : String
  pub redirect_uris : List String
  pub allowed_scopes : List String
  pub allowed_grant_types : List String
  pub allowed_resources : List String
  pub default_resource : Option String
  pub enabled : Bool
  pub registration_type : RegistrationType
  pub metadata_fingerprint : Option String

pub record OauthResource : Type 0 where
  pub resource_uri : String
  pub name : String
  pub allowed_scopes : List String
  pub enabled : Bool
  pub mcp_enabled : Bool
  pub metadata_client_policy : MetadataClientPolicy

abbrev pub is_metadata : RegistrationType → Bool
is_metadata static_client = false
is_metadata client_id_metadata = true
