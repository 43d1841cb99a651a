-- ===== src/Oauth/Authorize/Trusted.antt =====
-- Where an authorization request may lead.
-- About src/oauth/authorize.ts.
use mathlib.Core.Path.{subst}
use keyforge.Prelude.{
  ℕ, String, ◌≡◌, refl, sym, ap, ◌∙◌, ◌⊎◌, inl, inr, Bool, true, false, not, ◌&&◌, Option, none,
  some, List, [], ◌∷◌, arith, ltb, eqb, Bool-cases, length, any, includes, ◌!=◌, string_eq,
  option_eq, nat_eq,
}
use keyforge.Env.{is_yolo_enabled}
use keyforge.Oauth.Errors.{
  OauthErrorCode, Attempt, returned, thrown, returned_injective, >>=-eq-returned, invalid_request,
  invalid_scope, unauthorized_client, unsupported_response_type,
}
use keyforge.Oauth.Domain.{OauthClient}
use keyforge.Oauth.Resources.{resolve_resource_for_scopes}
use keyforge.Oauth.Scopes.{parse_scope_string, validate_requested_scopes}
use keyforge.Oauth.RequestLimits.{LimitFailure, validate_oauth_parameter_set}
use keyforge.Oauth.Authorize.{
  ClientLookup, client_found, metadata_error, Reads, Query, get_all, get, first, AuthorizeParams,
  AuthorizeValidation, invalid_request_page, error_redirect, ok, parse_prompts, parse_max_age,
  single_parameters, is_registered, has_proof_key, params_of, redirect_or_ok, authorized_params,
  validate_prompts, validate_registered, validate_redirect, validate_client, single_resource,
  validate_client_id, is_failure, validate_authorize_request,
}

-- Where an answer sends the browser, with an error or with a code.
abbrev pub target : AuthorizeValidation → Option String
target (invalid_request_page reason client_id) = none
target (error_redirect redirect_uri state code) = some redirect_uri
target (ok params) = some params.redirect_uri

-- The client is the only one named, and the URI the only one given.
pub record IsTrusted (q : Reads) (query : Query) (client_id : String) (client : OauthClient)
    (uri : String) : Type 0 where
  pub only_id : get_all "client_id" query ≡ client_id ∷ []
  pub found :
      q.resolve_authorization_client client_id (single_resource query) ≡ client_found (some client)
  pub enabled : client.enabled ≡ true
  pub only_uri : get_all "redirect_uri" query ≡ uri ∷ []
  pub registered : is_registered q client uri ≡ true

one_value :
    (values : List String) (value : String)
    → eqb (length values) 1 ≡ true
    → first values ≡ some value
    → values ≡ value ∷ []
one_value [] value h e = cc
one_value (v ∷ []) value h e = ap (λ x. x ∷ []) (ground (arith, e))
one_value (v ∷ w ∷ rest) value h e = absurd (ground (arith, h))

module _ (q : Reads) (query : Query) (client_id : String) (client : OauthClient)
    (uri : String) where
  -- The scopes are those of the request, which the client may have, and the resource is granted for them.
  pub record IsAuthorized (prompts : List String) (max_age : Option ℕ) (params : AuthorizeParams)
      : Type 0 where
    pub scopes : List String
    pub resource : String
    pub allowed :
        validate_requested_scopes (parse_scope_string (get "scope" query)) client.allowed_scopes
        ≡ returned scopes
    pub granted :
        resolve_resource_for_scopes q.parse q.env q.directory client (get "resource" query) scopes
        ≡ returned resource
    pub made : params ≡ params_of query client_id client uri prompts max_age scopes resource

  pub authorized :
      (prompts : List String) (max_age : Option ℕ) (params : AuthorizeParams)
      → authorized_params q query client_id client uri prompts max_age ≡ returned params
      → IsAuthorized prompts max_age params
  unfolding authorized_params
  authorized prompts max_age params h =
      let (scopes, a, rest) =
        >>=-eq-returned
          (validate_requested_scopes (parse_scope_string (get "scope" query)) client.allowed_scopes)
          _ h in
      let (resource, g, made) =
        >>=-eq-returned
          (resolve_resource_for_scopes q.parse q.env q.directory client (get "resource" query)
            scopes)
          _ rest in
      record {
        scopes = scopes;
        resource = resource;
        allowed = a;
        granted = g;
        made = sym (returned_injective _ _ made);
      }

  redirect_target :
      (prompts : List String) (max_age : Option ℕ) (attempt : Attempt AuthorizeParams)
      → authorized_params q query client_id client uri prompts max_age ≡ attempt
      → target (redirect_or_ok uri (get "state" query) attempt) ≡ some uri
  redirect_target prompts max_age (thrown code) h = refl
  redirect_target prompts max_age (returned params) h =
      ap (λ x. some x.redirect_uri) (authorized prompts max_age params h).made

  prompts_target :
      (prompts : Option (List String)) (age : Option (Option ℕ))
      → target (validate_prompts q query client_id client uri prompts age) ≡ some uri
  unfolding validate_prompts
  prompts_target none age = refl
  prompts_target (some prompts) none = refl
  prompts_target (some prompts) (some max_age) = redirect_target prompts max_age _ refl

  -- The guards of a request with a trusted redirect URI, in their order.
  abbrev pub repeats : Bool
  repeats = any (λ name. ltb 1 (length (get_all name query))) single_parameters

  abbrev pub bars_grant : Bool
  bars_grant =
      not (is_yolo_enabled q.env) && not (includes client.allowed_grant_types "authorization_code")

  abbrev pub asks_other : Bool
  asks_other = not (is_yolo_enabled q.env) && get "response_type" query != some "code"

  abbrev pub lacks_proof_key : Bool
  lacks_proof_key = not (is_yolo_enabled q.env) && not (has_proof_key query)

  abbrev pub lacks_scope : Bool
  lacks_scope =
      not (is_yolo_enabled q.env) && eqb (length (parse_scope_string (get "scope" query))) 0

  abbrev pub with_prompts : AuthorizeValidation
  with_prompts =
      validate_prompts q query client_id client uri (parse_prompts (get "prompt" query))
        (parse_max_age (get "max_age" query))

  pub record Passes : Type 0 where
    pub single : repeats ≡ false
    pub grant_type : bars_grant ≡ false
    pub response_type : asks_other ≡ false
    pub proof_key : lacks_proof_key ≡ false
    pub scope : lacks_scope ≡ false

  -- Either a guard stops the request, or all of them let it through.
  pub registered_cases :
      ((state : Option String) × (code : OauthErrorCode) × (validate_registered q query client_id
            client uri
          ≡ error_redirect uri state code))
      ⊎ (Passes × (validate_registered q query client_id client uri ≡ with_prompts))
  unfolding validate_registered
  registered_cases = elim (Bool-cases repeats) [
    | inl a ↦ inl (none, invalid_request, rw a refl)
    | inr a ↦ elim (Bool-cases bars_grant) [
      | inl b ↦ inl (get "state" query, unauthorized_client, rw (a, b) refl)
      | inr b ↦ elim (Bool-cases asks_other) [
        | inl c ↦ inl (get "state" query, unsupported_response_type, rw (a, b, c) refl)
        | inr c ↦ elim (Bool-cases lacks_proof_key) [
          | inl d ↦ inl (get "state" query, invalid_request, rw (a, b, c, d) refl)
          | inr d ↦ elim (Bool-cases lacks_scope) [
            | inl e ↦ inl (get "state" query, invalid_scope, rw (a, b, c, d, e) refl)
            | inr e ↦ inr (
              record { single = a; grant_type = b; response_type = c; proof_key = d; scope = e },
              rw (a, b, c, d, e) refl,
            )
          ]
        ]
      ]
    ]
  ]

  registered_target : target (validate_registered q query client_id client uri) ≡ some uri
  registered_target = elim registered_cases [
    | inl (state, code, stopped) ↦ ap target stopped
    | inr (_, passed) ↦ ap target passed ∙ prompts_target _ _
  ]

redirect_cases :
    (q : Reads) (query : Query) (client_id : String) (client : OauthClient) (given : String)
    → is_yolo_enabled q.env ≡ false
    → (target (validate_redirect q query client_id client (some given)) ≡ none)
      ⊎ ((is_registered q client given ≡ true)
          × (validate_redirect q query client_id client (some given)
              ≡ validate_registered q query client_id client given))
unfolding validate_redirect
redirect_cases q query client_id client given off =
    elim (Bool-cases (not (is_yolo_enabled q.env) && not (is_registered q client given))) [
      | inl foreign ↦ inl (rw foreign refl)
      | inr known ↦ inr (ground (arith, off, known), rw known refl)
    ]

-- An answer that leads somewhere comes from a request whose redirect URI is trusted.
redirect_trusted :
    (q : Reads) (query : Query) (client_id : String) (client : OauthClient) (o : Option String)
    (uri : String)
    → is_yolo_enabled q.env ≡ false
    → target (validate_redirect q query client_id client o) ≡ some uri
    → (o ≡ some uri)
      × (is_registered q client uri ≡ true)
      × (validate_redirect q query client_id client o
          ≡ validate_registered q query client_id client uri)
unfolding validate_redirect
redirect_trusted q query client_id client none uri off h = cc
redirect_trusted q query client_id client (some given) uri off h =
    elim (redirect_cases q query client_id client given off) [
      | inl page ↦ cc (page, h)
      | inr (known, passed) ↦
          let same : some given ≡ some uri =
            sym (registered_target q query client_id client given) ∙ sym (ap target passed) ∙ h in
          let e : given ≡ uri = cc in
          (
            same,
            subst (λ x. is_registered q client x ≡ true) e known,
            passed ∙ ap (validate_registered q query client_id client) e,
          )
    ]

-- The request as far as its redirect URI is concerned, and what the rest answers.
unfoldable pub Trusts : Reads → Query → String → AuthorizeValidation → Type 0
Trusts q query uri answer =
    (client_id : String) × (client : OauthClient) × IsTrusted q query client_id client uri
    × (answer ≡ validate_registered q query client_id client uri)

client_trusted :
    (q : Reads) (query : Query) (client_id : String) (lookup : ClientLookup) (uri : String)
    → is_yolo_enabled q.env ≡ false
    → get_all "client_id" query ≡ client_id ∷ []
    → q.resolve_authorization_client client_id (single_resource query) ≡ lookup
    → target (validate_client q query client_id lookup) ≡ some uri
    → Trusts q query uri (validate_client q query client_id lookup)
unfolding validate_client Trusts
client_trusted q query client_id metadata_error uri off only found h = cc
client_trusted q query client_id (client_found none) uri off only found h = cc
client_trusted q query client_id (client_found (some client)) uri off only found h =
    elim (Bool-cases (not client.enabled)) [
      | inl disabled ↦ cc (rw disabled at h)
      | inr enabled ↦ elim (Bool-cases (eqb (length (get_all "redirect_uri" query)) 1)) [
        | inr several ↦ cc (rw (enabled, several) at h)
        | inl one ↦
            let (given, registered, passed) =
              redirect_trusted q query client_id client (get "redirect_uri" query) uri off
                (rw (enabled, one) at h) in
            (
              client_id,
              client,
              record {
                only_id = only;
                found = found;
                enabled = ground (arith, enabled);
                only_uri = one_value (get_all "redirect_uri" query) uri one given;
                registered = registered;
              },
              rw (enabled, one) passed,
            )
      ]
    ]

client_id_trusted :
    (q : Reads) (query : Query) (o : Option String) (uri : String)
    → is_yolo_enabled q.env ≡ false
    → eqb (length (get_all "client_id" query)) 1 ≡ true
    → get "client_id" query ≡ o
    → target (validate_client_id q query o) ≡ some uri
    → Trusts q query uri (validate_client_id q query o)
unfolding validate_client_id
client_id_trusted q query none uri off one given h = cc
client_id_trusted q query (some client_id) uri off one given h =
    client_trusted q query client_id _ uri off
      (one_value (get_all "client_id" query) client_id one given) refl h

no_failure :
    (o : Option LimitFailure) (yolo : Bool)
    → yolo ≡ false
    → (not yolo && is_failure o) ≡ false
    → o ≡ none
no_failure none yolo off h = refl
no_failure (some failure) yolo off h = absurd (ground (arith, off, h))

pub request_trusted :
    (q : Reads) (query : Query) (uri : String)
    → is_yolo_enabled q.env ≡ false
    → target (validate_authorize_request q query) ≡ some uri
    → (validate_oauth_parameter_set q.platform q.parse query ≡ none)
      × Trusts q query uri (validate_authorize_request q query)
unfolding validate_authorize_request
request_trusted q query uri off h =
    elim (Bool-cases (
      not (is_yolo_enabled q.env)
      && is_failure (validate_oauth_parameter_set q.platform q.parse query))) [
        | inl over ↦ cc (rw over at h)
        | inr within ↦ elim (Bool-cases (eqb (length (get_all "client_id" query)) 1)) [
          | inr several ↦ cc (rw (within, several) at h)
          | inl one ↦ (
            no_failure _ (is_yolo_enabled q.env) off within,
            rw (within, one)
                (client_id_trusted q query (get "client_id" query) uri off one refl
                  (rw (within, one) at h)),
          )
        ]
      ]

-- With validation on, an answer leads the browser to a URI, with an error or with a code, only if the
-- parameters are within their limits, exactly one client is named, is found and is enabled, and the
-- URI is the only one given and is registered for that client.
pub validate_authorize_request-IsTrusted :
    (q : Reads) (query : Query) (uri : String)
    → is_yolo_enabled q.env ≡ false
    → target (validate_authorize_request q query) ≡ some uri
    → (validate_oauth_parameter_set q.platform q.parse query ≡ none)
      × ((client_id : String) × (client : OauthClient) × IsTrusted q query client_id client uri)
unfolding Trusts
validate_authorize_request-IsTrusted q query uri off h =
    let (within, trusts) = request_trusted q query uri off h in
    let (client_id, client, trusted, _) = trusts in (within, (client_id, client, trusted))
