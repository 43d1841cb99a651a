-- ===== src/Oauth/Resources.antt =====
-- src/oauth/resources.ts. What the database says of resources and approvals is a parameter.
pub mod Grantable
pub mod Tests
use keyforge.Prelude.{
  String, Bool, true, false, not, ◌&&◌, ◌||◌, Option, none, some, List, if◌then◌else◌, filter,
  includes, ◌==◌, string_eq, option_eq, nat_eq,
}
use keyforge.Env.{Env, is_yolo_enabled}
use keyforge.Oauth.Errors.{Attempt, returned, thrown, ◌>>=◌, ◌>>◌, require, invalid_target}
use keyforge.Oauth.Domain.{
  OauthClient, OauthResource, MetadataClientPolicy, disabled, consent_required, admin_approved,
  is_metadata,
}
use keyforge.Oauth.Redirect.{ParseUrl, is_mcp_resource_uri_allowed}
use keyforge.Oauth.Scopes.{validate_requested_scopes, is_permission_group_controlled_scope}

pub record Directory : Type 0 where
  -- `getResourceByUri`.
  pub resource_by_uri : String → Option OauthResource
  -- `isMetadataClientApproved`.
  pub is_metadata_client_approved : (client_id resource_uri : String) → Bool

-- `requestedResource ?? client.defaultResource`.
abbrev pub or_default : Option String → Option String → Option String
or_default none default = default
or_default (some requested) default = some requested

unfoldable pub named : Option String → Attempt String
named none = thrown invalid_target
named (some resource) = if resource == "" then thrown invalid_target else returned resource

abbrev is_none : Option String → Bool
is_none none = true
is_none (some s) = false

abbrev is_disabled : MetadataClientPolicy → Bool
is_disabled disabled = true
is_disabled consent_required = false
is_disabled admin_approved = false

abbrev needs_approval : MetadataClientPolicy → Bool
needs_approval disabled = false
needs_approval consent_required = false
needs_approval admin_approved = true

-- Is a client that a metadata document describes turned away?
unfoldable pub rejects_metadata : OauthResource → (approved : Bool) → Bool
rejects_metadata registered approved =
    not registered.mcp_enabled
    || is_disabled registered.metadata_client_policy
    || (needs_approval registered.metadata_client_policy
        && not (needs_approval registered.metadata_client_policy && approved))

-- In the mode that skips validation an unknown or disabled resource is made up.
unfoldable pub synthesized : OauthClient → String → Option OauthResource → OauthResource
synthesized client resource none = record {
  resource_uri = resource;
  name = resource;
  allowed_scopes = client.allowed_scopes;
  enabled = true;
  mcp_enabled = false;
  metadata_client_policy = disabled;
}
synthesized client resource (some registered) = record {
  resource_uri = resource;
  name = registered.name;
  allowed_scopes = registered.allowed_scopes;
  enabled = true;
  mcp_enabled = registered.mcp_enabled;
  metadata_client_policy = registered.metadata_client_policy;
}

module _ (parse : ParseUrl) (env : Env) (directory : Directory) (client : OauthClient) where
  -- The checks on a resource that is registered and enabled.
  unfoldable pub admitted : (requested : Option String) → OauthResource → Attempt OauthResource
  unfolding rejects_metadata
  admitted requested registered = do
    require
        (not (
          registered.mcp_enabled
          && not (is_mcp_resource_uri_allowed parse env.environment registered.resource_uri)))
        invalid_target
    require (not (not (is_yolo_enabled env) && registered.mcp_enabled && is_none requested))
        invalid_target
    require
        (not (
          not (is_yolo_enabled env)
          && is_metadata client.registration_type
          && rejects_metadata registered
              (directory.is_metadata_client_approved client.client_id registered.resource_uri)))
        invalid_target
    returned registered

  unfoldable pub looked_up :
      (requested : Option String) → String → Option OauthResource → Attempt OauthResource
  unfolding synthesized admitted
  looked_up requested resource none =
      if is_yolo_enabled env
      then returned (synthesized client resource none)
      else thrown invalid_target
  looked_up requested resource (some registered) =
      if registered.enabled
      then admitted requested registered
      else if is_yolo_enabled env
      then returned (synthesized client resource (some registered))
      else thrown invalid_target

  unfoldable pub resolve_resource_record : (requested : Option String) → Attempt OauthResource
  unfolding named
  resolve_resource_record requested = do
    resource ← named (or_default requested client.default_resource)
    require (is_yolo_enabled env || includes client.allowed_resources resource) invalid_target
    looked_up requested resource (directory.resource_by_uri resource)

  unfoldable pub checked_scopes : (scopes : List String) → OauthResource → Attempt String
  checked_scopes scopes registered = do
    validate_requested_scopes scopes client.allowed_scopes
    validate_requested_scopes (filter is_permission_group_controlled_scope scopes)
        registered.allowed_scopes
    returned registered.resource_uri

  unfoldable pub resolve_resource_for_scopes :
      (requested : Option String) → (scopes : List String) → Attempt String
  resolve_resource_for_scopes requested scopes = do
    registered ← resolve_resource_record requested
    if is_yolo_enabled env
        then returned registered.resource_uri
        else checked_scopes scopes registered

  pub resolve_resource : (requested : Option String) → Attempt String
  resolve_resource requested = do
    registered ← resolve_resource_record requested
    returned registered.resource_uri
