-- ===== src/Oauth/Authorize/Valid.antt =====
-- What a valid authorization request is.
-- About src/oauth/authorize.ts.
use mathlib.Core.Path.{subst}
use keyforge.Prelude.{
  ℕ, ◌≤◌, String, ◌≡◌, refl, sym, ap, ◌∙◌, inl, inr, Bool, true, false, not, ◌&&◌, Option, none,
  some, List, arith, ltb, eqb, length, any, includes, &&-left, &&-right, string_eq, option_eq,
  nat_eq, option_beq_iff,
}
use keyforge.Env.{is_yolo_enabled}
use keyforge.Oauth.Errors.{Attempt, returned, thrown}
use keyforge.Oauth.Domain.{OauthClient}
use keyforge.Oauth.Pkce.{is_valid_s256_challenge}
use keyforge.Oauth.Resources.{resolve_resource_for_scopes}
use keyforge.Oauth.Scopes.{parse_scope_string}
use keyforge.Oauth.Scopes.Requested.{IsSubset, validate_requested_scopes_ok}
use keyforge.Oauth.Authorize.{
  Reads, Query, get_all, get, AuthorizeParams, ok, parse_prompts, parse_max_age, single_parameters,
  or_empty, challenge_is_valid, redirect_or_ok, authorized_params, validate_prompts,
  validate_registered, validate_authorize_request,
}
use keyforge.Oauth.Authorize.Trusted.{
  target, IsTrusted, IsAuthorized, authorized, registered_cases, Trusts, request_trusted,
}

-- What a request has to be for its answer to be valid parameters.
pub record IsValid (q : Reads) (query : Query) (params : AuthorizeParams) : Type 0 where
  pub trusted : IsTrusted q query params.client_id params.client params.redirect_uri
  pub single : any (λ name. ltb 1 (length (get_all name query))) single_parameters ≡ false
  pub grant_type : includes params.client.allowed_grant_types "authorization_code" ≡ true
  pub response_type : get "response_type" query ≡ some "code"
  pub challenge : get "code_challenge" query ≡ some params.code_challenge
  pub challenge_form : is_valid_s256_challenge params.code_challenge ≡ true
  pub method : get "code_challenge_method" query ≡ some "S256"
  pub scopes : params.scopes ≡ parse_scope_string (get "scope" query)
  pub some_scope : 1 ≤ length params.scopes
  pub allowed : IsSubset params.scopes params.client.allowed_scopes
  pub resource :
      resolve_resource_for_scopes q.parse q.env q.directory params.client
        (get "resource" query)
        params.scopes
      ≡ returned params.resource
  pub state : params.state ≡ get "state" query
  pub nonce : params.nonce ≡ get "nonce" query
  pub prompts : parse_prompts (get "prompt" query) ≡ some params.prompts
  pub max_age : parse_max_age (get "max_age" query) ≡ some params.max_age

ok_returned :
    (uri : String) (state : Option String) (attempt : Attempt AuthorizeParams)
    (params : AuthorizeParams)
    → redirect_or_ok uri state attempt ≡ ok params
    → attempt ≡ returned params
ok_returned uri state (thrown code) params h = cc
ok_returned uri state (returned made) params h = cc

not_empty :
    (yolo : Bool) (scopes : List String)
    → yolo ≡ false
    → (not yolo && eqb (length scopes) 0) ≡ false
    → 1 ≤ length scopes
not_empty yolo scopes off h = ground (arith, off, h)

challenge_given :
    (o : Option String)
    → challenge_is_valid o ≡ true
    → (o ≡ some (or_empty o)) × (is_valid_s256_challenge (or_empty o) ≡ true)
challenge_given none h = cc
challenge_given (some challenge) h = (refl, h)

lifts : (yolo b : Bool) → yolo ≡ false → (not yolo && not b) ≡ false → b ≡ true
lifts yolo b off h = ground (arith, off, h)

module _ (q : Reads) (query : Query) (client_id : String) (client : OauthClient)
    (uri : String) where
  prompts_ok :
      (prompts : Option (List String)) (age : Option (Option ℕ)) (params : AuthorizeParams)
      → validate_prompts q query client_id client uri prompts age ≡ ok params
      → (list : List String) × (max_age : Option ℕ) × (prompts ≡ some list)
        × (age ≡ some max_age)
        × IsAuthorized q query client_id client uri list max_age params
  unfolding validate_prompts
  prompts_ok none age params h = cc
  prompts_ok (some prompts) none params h = cc
  prompts_ok (some prompts) (some max_age) params h = (
    prompts,
    max_age,
    refl,
    refl,
    authorized q query client_id client uri prompts max_age params (
        ok_returned uri (get "state" query)
          (authorized_params q query client_id client uri prompts max_age) params h),
  )

  registered-IsValid :
      (params : AuthorizeParams)
      → is_yolo_enabled q.env ≡ false
      → IsTrusted q query client_id client uri
      → validate_registered q query client_id client uri ≡ ok params
      → IsValid q query params
  registered-IsValid params off trusted h = elim (registered_cases q query client_id client uri) [
    | inl (state, code, stopped) ↦ cc (stopped, h)
    | inr (guards, passed) ↦
        let (list, age, p, a, made) = prompts_ok _ _ params (sym passed ∙ h) in
        let proof = lifts _ _ off guards.proof_key in
        let (challenge, form) = challenge_given (get "code_challenge" query) (&&-left _ _ proof) in
        let (same, subset) =
          validate_requested_scopes_ok (parse_scope_string (get "scope" query))
            client.allowed_scopes made.scopes made.allowed in
        subst (IsValid q query) (sym made.made) (record {
          trusted = trusted;
          single = guards.single;
          grant_type = lifts _ _ off guards.grant_type;
          response_type = (option_beq_iff _ _).0 (lifts _ _ off guards.response_type);
          challenge = challenge;
          challenge_form = form;
          method = (option_beq_iff _ _).0 (&&-right _ _ proof);
          scopes = same;
          some_scope =
              subst (λ x. 1 ≤ length x) (sym same)
                (not_empty (is_yolo_enabled q.env) (parse_scope_string (get "scope" query)) off
                  guards.scope);
          allowed = rw same subset;
          resource = made.granted;
          state = refl;
          nonce = refl;
          prompts = p;
          max_age = a;
        })
  ]

-- With validation on, valid parameters come only from a request whose redirect URI is trusted, by a client
-- that may use codes, with a proof key by SHA-256, with no parameter repeated, and with at least one
-- scope, all of them the client's; they are the request's own, for a resource granted with them.
pub validate_authorize_request-IsValid :
    (q : Reads) (query : Query) (params : AuthorizeParams)
    → is_yolo_enabled q.env ≡ false
    → validate_authorize_request q query ≡ ok params
    → IsValid q query params
unfolding Trusts
validate_authorize_request-IsValid q query params off h =
    let (_, trusts) = request_trusted q query params.redirect_uri off (ap target h) in
    let (client_id, client, trusted, rest) = trusts in
    registered-IsValid q query client_id client params.redirect_uri params off trusted
      (sym rest ∙ h)
