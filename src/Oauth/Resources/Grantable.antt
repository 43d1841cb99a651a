-- ===== src/Oauth/Resources/Grantable.antt =====
-- For which resources and scopes a client is granted a token.
-- About src/oauth/resources.ts.
use mathlib.Core.Path.{subst}
use keyforge.Prelude.{
  String, ◌≡◌, sym, ap, ◌≢◌, ◌↔◌, ◌⊎◌, inl, inr, true, false, ◌||◌, Option, none, some, List, arith,
  eq_iff, if◌then◌else◌, Bool-cases, filter, includes, IsMember, includes_iff, string_eq, option_eq,
  nat_eq,
}
use keyforge.Env.{Env, is_yolo_enabled}
use keyforge.Oauth.Errors.{
  returned, require, require-returned, >>=-eq-returned, >>=-returned, invalid_target,
}
use keyforge.Oauth.Domain.{
  OauthClient, OauthResource, consent_required, admin_approved, is_metadata,
}
use keyforge.Oauth.Redirect.{ParseUrl, is_mcp_resource_uri_allowed}
use keyforge.Oauth.Scopes.{validate_requested_scopes, is_permission_group_controlled_scope}
use keyforge.Oauth.Scopes.Requested.{
  IsSubset, validate_requested_scopes_subset, validate_requested_scopes_ok,
}
use keyforge.Oauth.Resources.{
  Directory, or_default, named, is_none, rejects_metadata, admitted, looked_up,
  resolve_resource_record, checked_scopes, resolve_resource_for_scopes,
}

-- A client that a metadata document describes gets only to resources that admit such clients.
pub record AdmitsMetadata (directory : Directory) (client : OauthClient) (r : OauthResource)
    : Type 0 where
  pub mcp : r.mcp_enabled ≡ true
  pub policy :
      (r.metadata_client_policy ≡ consent_required)
      ⊎ ((r.metadata_client_policy ≡ admin_approved)
          × (directory.is_metadata_client_approved client.client_id r.resource_uri ≡ true))

-- The checks on a resource that a client may use and that is registered.
pub record IsAdmitted (parse : ParseUrl) (env : Env) (directory : Directory) (client : OauthClient)
    (requested : Option String) (r : OauthResource) : Type 0 where
  pub transport :
      (r.mcp_enabled ≡ false)
      ⊎ (is_mcp_resource_uri_allowed parse env.environment r.resource_uri ≡ true)
  pub explicit : (r.mcp_enabled ≡ false) ⊎ (is_none requested ≡ false)
  pub metadata : (is_metadata client.registration_type ≡ false) ⊎ AdmitsMetadata directory client r

module _ (parse : ParseUrl) (env : Env) (directory : Directory) (client : OauthClient)
    (off : is_yolo_enabled env ≡ false) where
  rejects_iff :
      (r : OauthResource)
      → (rejects_metadata r (directory.is_metadata_client_approved client.client_id r.resource_uri)
          ≡ false)
        ↔ AdmitsMetadata directory client r
  unfolding rejects_metadata
  rejects_iff r = ground arith

  admitted_iff :
      (requested : Option String) (r r' : OauthResource)
      → (admitted parse env directory client requested r ≡ returned r')
        ↔ ((r ≡ r') × IsAdmitted parse env directory client requested r)
  unfolding admitted
  admitted_iff requested r r' = ground (arith, rejects_iff r, off)

  looked_up_iff :
      (requested : Option String) (asked : String) (found : Option OauthResource)
      (r : OauthResource)
      → (looked_up parse env directory client requested asked found ≡ returned r) ↔ (
          (found ≡ some r) × (r.enabled ≡ true) × IsAdmitted parse env directory client requested r)
  unfolding looked_up
  looked_up_iff requested asked none r = (λ h. cc (rw off at h), λ h. cc (h.0))
  looked_up_iff requested asked (some s) r = (to, from)
    where
      to :
          looked_up parse env directory client requested asked (some s) ≡ returned r
          → (some s ≡ some r)
            × (r.enabled ≡ true)
            × IsAdmitted parse env directory client requested r
      to h = elim (Bool-cases s.enabled) [
        | inl on ↦
            (let (e, a) = (admitted_iff requested s r).0 (ground (arith, on)) in
              (
                ap some e,
                subst (λ x. x.enabled ≡ true) e on,
                subst (IsAdmitted parse env directory client requested) e a,
              ))
        | inr no' ↦ absurd (ground (arith, off, no'))
      ]

      from :
          (some s ≡ some r) × (r.enabled ≡ true) × IsAdmitted parse env directory client requested r
          → looked_up parse env directory client requested asked (some s) ≡ returned r
      from (e, on, a) =
          let same : s ≡ r = cc e in
          ground (
            arith,
            subst (λ x. x.enabled ≡ true) (sym same) on,
            (admitted_iff requested s r).1
                (same, subst (IsAdmitted parse env directory client requested) (sym same) a),
          )

  named_iff :
      (asked : Option String) (resource : String)
      → (named asked ≡ returned resource) ↔ ((asked ≡ some resource) × (resource ≢ ""))
  unfolding named
  named_iff none resource = ground arith
  named_iff (some a) resource = ground (arith, eq_iff a "")

-- A token for `resource` with `scopes` may be granted to the client.
pub record IsGrantable (parse : ParseUrl) (env : Env) (directory : Directory) (client : OauthClient)
    (requested : Option String) (scopes : List String) (resource : String) : Type 0 where
  pub asked : String
  pub registered : OauthResource
  pub chosen : or_default requested client.default_resource ≡ some asked
  pub permitted : IsMember asked client.allowed_resources
  pub nonempty : asked ≢ ""
  pub found : directory.resource_by_uri asked ≡ some registered
  pub enabled : registered.enabled ≡ true
  pub admitted : IsAdmitted parse env directory client requested registered
  pub client_scopes : IsSubset scopes client.allowed_scopes
  pub resource_scopes :
      IsSubset (filter is_permission_group_controlled_scope scopes) registered.allowed_scopes
  pub audience : registered.resource_uri ≡ resource

module _ (parse : ParseUrl) (env : Env) (directory : Directory) (client : OauthClient)
    (requested : Option String) (scopes : List String) (resource : String)
    (off : is_yolo_enabled env ≡ false) where
  allowed_resource :
      (asked : String)
      → (is_yolo_enabled env || includes client.allowed_resources asked) ≡ true
      → IsMember asked client.allowed_resources
  allowed_resource asked h = (includes_iff client.allowed_resources asked).0 (ground (arith, off))

  passes :
      (asked : String)
      → IsMember asked client.allowed_resources
      → require (is_yolo_enabled env || includes client.allowed_resources asked) invalid_target
        ≡ returned tt
  passes asked m = ground (arith, (includes_iff client.allowed_resources asked).1 m)

  checked_scopes_iff :
      (registered : OauthResource)
      → (checked_scopes parse env directory client scopes registered ≡ returned resource) ↔ (
          IsSubset scopes client.allowed_scopes
          × IsSubset (filter is_permission_group_controlled_scope scopes) registered.allowed_scopes
          × (registered.resource_uri ≡ resource))
  unfolding checked_scopes
  checked_scopes_iff registered = (to, from)
    where
      to :
          checked_scopes parse env directory client scopes registered ≡ returned resource
          → IsSubset scopes client.allowed_scopes
            × IsSubset
                (filter is_permission_group_controlled_scope scopes)
                registered.allowed_scopes
            × (registered.resource_uri ≡ resource)
      to h =
          let (_, a, c) =
            >>=-eq-returned (validate_requested_scopes scopes client.allowed_scopes) _ h in
          let (_, b, e) =
            >>=-eq-returned
              (validate_requested_scopes (filter is_permission_group_controlled_scope scopes)
                registered.allowed_scopes)
              _ c in
          (
            (validate_requested_scopes_ok scopes client.allowed_scopes _ a).1,
            (validate_requested_scopes_ok _ registered.allowed_scopes _ b).1,
            cc e,
          )

      from :
          IsSubset scopes client.allowed_scopes
            × IsSubset
                (filter is_permission_group_controlled_scope scopes)
                registered.allowed_scopes
            × (registered.resource_uri ≡ resource)
          → checked_scopes parse env directory client scopes registered ≡ returned resource
      from (a, b, e) =
          >>=-returned (validate_requested_scopes scopes client.allowed_scopes) _
            (validate_requested_scopes_subset scopes client.allowed_scopes a)
            (>>=-returned
              (validate_requested_scopes (filter is_permission_group_controlled_scope scopes)
                registered.allowed_scopes)
              _ (validate_requested_scopes_subset _ registered.allowed_scopes b) (ap returned e))

  checked_last :
      (registered : OauthResource)
      → ((if is_yolo_enabled env
            then returned registered.resource_uri
            else checked_scopes parse env directory client scopes registered)
          ≡ returned resource)
        ↔ (checked_scopes parse env directory client scopes registered ≡ returned resource)
  checked_last registered = ground (arith, off)

  sound :
      resolve_resource_for_scopes parse env directory client requested scopes ≡ returned resource
      → IsGrantable parse env directory client requested scopes resource
  unfolding resolve_resource_for_scopes resolve_resource_record
  sound h =
      let (registered, r, c) =
        >>=-eq-returned (resolve_resource_record parse env directory client requested) _ h in
      let (asked, n, g) =
        >>=-eq-returned (named (or_default requested client.default_resource)) _ r in
      let (_, permitted, l) =
        >>=-eq-returned
          (require (is_yolo_enabled env || includes client.allowed_resources asked) invalid_target)
          _ g in
      let (found, on, admission) =
        (looked_up_iff parse env directory client off requested asked _ registered).0 l in
      let (chosen, nonempty) =
        (named_iff parse env directory client off (or_default requested client.default_resource)
            asked).0
          n in
      let (a, b, e) = (checked_scopes_iff registered).0 ((checked_last registered).0 c) in
      record {
        asked = asked;
        registered = registered;
        chosen = chosen;
        permitted = allowed_resource asked (require-returned _ invalid_target permitted);
        nonempty = nonempty;
        found = found;
        enabled = on;
        admitted = admission;
        client_scopes = a;
        resource_scopes = b;
        audience = e;
      }

  complete :
      IsGrantable parse env directory client requested scopes resource
      → resolve_resource_for_scopes parse env directory client requested scopes ≡ returned resource
  unfolding resolve_resource_for_scopes resolve_resource_record
  complete g =
      >>=-returned (resolve_resource_record parse env directory client requested) _
        (>>=-returned (named (or_default requested client.default_resource)) _
          ((named_iff parse env directory client off _ g.asked).1 (g.chosen, g.nonempty))
          (>>=-returned
            (require (is_yolo_enabled env || includes client.allowed_resources g.asked)
              invalid_target)
            _ (passes g.asked g.permitted)
            ((looked_up_iff parse env directory client off requested g.asked _ g.registered).1
              (g.found, g.enabled, g.admitted))))
        ((checked_last g.registered).1
          ((checked_scopes_iff g.registered).1 (g.client_scopes, g.resource_scopes, g.audience)))

-- With validation on, a client is granted a token for a resource and scopes exactly if the resource
-- it names, or else its default one, is one of its own, is registered under that URI and enabled,
-- admits the client (a resource for a remote protocol has an allowed URI and was named, a client of
-- a metadata document is admitted by policy), the client has every scope, and the resource has every
-- scope that permission groups control.
pub resolve_resource_for_scopes_iff :
    (parse : ParseUrl) (env : Env) (directory : Directory) (client : OauthClient)
    (requested : Option String) (scopes : List String) (resource : String)
    → is_yolo_enabled env ≡ false
    → (resolve_resource_for_scopes parse env directory client requested scopes ≡ returned resource)
      ↔ IsGrantable parse env directory client requested scopes resource
resolve_resource_for_scopes_iff parse env directory client requested scopes resource off = (
  sound parse env directory client requested scopes resource off,
  complete parse env directory client requested scopes resource off,
)
