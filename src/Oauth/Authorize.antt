-- ===== src/Oauth/Authorize.antt =====
-- src/oauth/authorize.ts. How a client is found, and whether its metadata document is valid, is a
-- parameter. The descriptions of errors are left out.
pub mod Trusted
pub mod Valid
pub mod Code
pub mod Tests
use Prim.Native.String
use keyforge.Prelude.{
  ℕ, ◌+◌, ◌-◌, ◌*◌, String, Bool, true, false, not, ◌&&◌, ◌||◌, Option, none, some, List, [], ◌∷◌,
  ltb, leb, eqb, length, any, all, includes, unique, if◌then◌else◌, ◌==◌, ◌!=◌, string_eq,
  option_eq, is_digit, codes,
}
use keyforge.Env.{Env, is_yolo_enabled}
use keyforge.Env.TokenTtl
use keyforge.Security.Crypto.{Platform, hash_opaque_token}
use keyforge.Do.OneTime
use keyforge.Do.OneTime.{Storage}
use keyforge.Do.AuthorizationCode.{Payload}
use keyforge.Oauth.Errors.{
  OauthErrorCode, Attempt, returned, thrown, ◌>>=◌, invalid_request, invalid_scope,
  unauthorized_client, unsupported_response_type,
}
use keyforge.Oauth.Domain.{OauthClient, OauthResource, is_metadata}
use keyforge.Oauth.Pkce.{is_valid_s256_challenge}
use keyforge.Oauth.Redirect.{ParseUrl, is_registered_redirect_uri}
use keyforge.Oauth.RequestLimits.{LimitFailure, validate_oauth_parameter_set}
use keyforge.Oauth.Resources.{Directory, resolve_resource_for_scopes}
use keyforge.Oauth.Scopes.{
  parse_scopes, parse_scope_string, serialize_scopes, validate_requested_scopes,
}
use keyforge.Oauth.CodeGrant.{put}

-- What the look-up of a client answers: a client or none, or that its metadata document is not valid.
pub data ClientLookup : Type 0 where
  client_found : Option OauthClient → ClientLookup
  metadata_error : ClientLookup

pub record Reads : Type 0 where
  pub platform : Platform
  pub parse : ParseUrl
  pub env : Env
  pub directory : Directory
  pub resolve_authorization_client :
      (client_id : String) → (resource : Option String) → ClientLookup

abbrev pub Query : Type 0
Query = List (String × String)

-- `URLSearchParams.getAll` and `get`.
abbrev pub get_all : (name : String) → Query → List String
get_all name [] = []
get_all name ((key, value) ∷ query) =
    if key == name then value ∷ get_all name query else get_all name query

abbrev pub first : List String → Option String
first [] = none
first (value ∷ values) = some value

abbrev pub get : (name : String) → Query → Option String
get name query = first (get_all name query)

pub data PageReason : Type 0 where
  bad_request invalid_client invalid_redirect_uri : PageReason

pub record AuthorizeParams : Type 0 where
  pub client_id : String
  pub client : OauthClient
  pub redirect_uri : String
  pub scopes : List String
  pub resource : String
  pub state : Option String
  pub nonce : Option String
  pub code_challenge : String
  pub prompts : List String
  pub max_age : Option ℕ

pub data AuthorizeValidation : Type 0 where
  invalid_request_page : PageReason → (client_id : Option String) → AuthorizeValidation
  error_redirect :
      (redirect_uri : String) → (state : Option String) → OauthErrorCode → AuthorizeValidation
  ok : AuthorizeParams → AuthorizeValidation

abbrev pub authorize_prompts : List String
authorize_prompts = "none" ∷ "login" ∷ "consent" ∷ []

abbrev prompts_from : List String → Option (List String)
prompts_from values =
    if eqb (length values) 0
      || any (λ value. not (includes authorize_prompts value)) values
      || (includes values "none" && not (eqb (length values) 1))
    then none
    else some values

pub parse_prompts : Option String → Option (List String)
parse_prompts none = some []
parse_prompts (some raw) = prompts_from (unique (parse_scopes raw))

-- The number that decimal digits write.
abbrev number_from : ℕ → List ℕ → ℕ
number_from n [] = n
number_from n (c ∷ cs) = number_from (n * 10 + (c - b'0')) cs

-- /^(0|[1-9]\d*)$/.
abbrev is_decimal : List ℕ → Bool
is_decimal [] = false
is_decimal (c ∷ cs) =
    (eqb c b'0' && eqb (length cs) 0) || (is_digit c && not (eqb c b'0') && all is_digit cs)

-- A digit text up to the greatest safe integer is read exactly; any greater one is not safe.
abbrev pub max_safe_integer : ℕ
max_safe_integer = 9007199254740991

-- `undefined` is `none`, and `null` is `some none`.
pub parse_max_age : Option String → Option (Option ℕ)
parse_max_age none = some none
parse_max_age (some raw) =
    if is_decimal (codes raw) && leb (number_from 0 (codes raw)) max_safe_integer
    then some (some (number_from 0 (codes raw)))
    else none

-- The parameters that may appear once at most.
abbrev pub single_parameters : List String
single_parameters =
    "response_type" ∷ "scope" ∷ "state" ∷ "nonce" ∷ "code_challenge" ∷ "code_challenge_method"
    ∷ "resource" ∷ "prompt" ∷ "max_age" ∷ []

abbrev pub is_registered : Reads → OauthClient → (redirect_uri : String) → Bool
is_registered q client redirect_uri =
    is_registered_redirect_uri q.parse client.redirect_uris (is_metadata client.registration_type)
      redirect_uri

abbrev pub challenge_is_valid : Option String → Bool
challenge_is_valid none = false
challenge_is_valid (some challenge) = is_valid_s256_challenge challenge

abbrev pub has_proof_key : Query → Bool
has_proof_key query =
    challenge_is_valid (get "code_challenge" query)
    && get "code_challenge_method" query == some "S256"

abbrev pub or_empty : Option String → String
or_empty none = ""
or_empty (some text) = text

abbrev pub redirect_or_ok :
    (redirect_uri : String)
    → (state : Option String) → Attempt AuthorizeParams
    → AuthorizeValidation
redirect_or_ok redirect_uri state (thrown code) = error_redirect redirect_uri state code
redirect_or_ok redirect_uri state (returned params) = ok params

abbrev pub params_of :
    Query
    → (client_id : String) → OauthClient
    → (redirect_uri : String) → (prompts : List String) → (max_age : Option ℕ)
    → (scopes : List String) → (resource : String) → AuthorizeParams
params_of query client_id client redirect_uri prompts max_age scopes resource = record {
  client_id = client_id;
  client = client;
  redirect_uri = redirect_uri;
  scopes = scopes;
  resource = resource;
  state = get "state" query;
  nonce = get "nonce" query;
  code_challenge = or_empty (get "code_challenge" query);
  prompts = prompts;
  max_age = max_age;
}

-- The scopes and the resource, the last checks.
pub authorized_params :
    Reads
    → Query
    → (client_id : String) → OauthClient
    → (redirect_uri : String) → (prompts : List String) → (max_age : Option ℕ)
    → Attempt AuthorizeParams
authorized_params q query client_id client redirect_uri prompts max_age = do
  scopes ← validate_requested_scopes (parse_scope_string (get "scope" query)) client.allowed_scopes
  resource ←
      resolve_resource_for_scopes q.parse q.env q.directory client (get "resource" query) scopes
  returned (params_of query client_id client redirect_uri prompts max_age scopes resource)

pub validate_prompts :
    Reads
    → Query
    → (client_id : String) → OauthClient
    → (redirect_uri : String) → Option (List String)
    → Option (Option ℕ)
    → AuthorizeValidation
unfolding authorized_params
validate_prompts q query client_id client redirect_uri (some prompts) (some max_age) =
    redirect_or_ok redirect_uri (get "state" query)
      (authorized_params q query client_id client redirect_uri prompts max_age)
validate_prompts q query client_id client redirect_uri _ _ =
    error_redirect redirect_uri (get "state" query) invalid_request

-- From here on the redirect URI is trusted, and errors go to the client.
pub validate_registered :
    Reads
    → Query
    → (client_id : String) → OauthClient
    → (redirect_uri : String) → AuthorizeValidation
unfolding validate_prompts
validate_registered q query client_id client redirect_uri =
    let yolo = is_yolo_enabled q.env in
    let state = get "state" query in
    if any (λ name. ltb 1 (length (get_all name query))) single_parameters
    then error_redirect redirect_uri none invalid_request
    else if not yolo && not (includes client.allowed_grant_types "authorization_code")
    then error_redirect redirect_uri state unauthorized_client
    else if not yolo && get "response_type" query != some "code"
    then error_redirect redirect_uri state unsupported_response_type
    else if not yolo && not (has_proof_key query)
    then error_redirect redirect_uri state invalid_request
    else if not yolo && eqb (length (parse_scope_string (get "scope" query))) 0
    then error_redirect redirect_uri state invalid_scope
    else validate_prompts q query client_id client redirect_uri (parse_prompts (get "prompt" query))
        (parse_max_age (get "max_age" query))

validate_redirect :
    Reads → Query → (client_id : String) → OauthClient → Option String → AuthorizeValidation
unfolding validate_registered
validate_redirect q query client_id client none =
    invalid_request_page invalid_redirect_uri (some client_id)
validate_redirect q query client_id client (some redirect_uri) =
    if not (is_yolo_enabled q.env) && not (is_registered q client redirect_uri)
    then invalid_request_page invalid_redirect_uri (some client_id)
    else validate_registered q query client_id client redirect_uri

validate_client : Reads → Query → (client_id : String) → ClientLookup → AuthorizeValidation
unfolding validate_redirect
validate_client q query client_id metadata_error =
    invalid_request_page invalid_client (some client_id)
validate_client q query client_id (client_found none) =
    invalid_request_page invalid_client (some client_id)
validate_client q query client_id (client_found (some client)) =
    if not client.enabled
    then invalid_request_page invalid_client (some client_id)
    else if not (eqb (length (get_all "redirect_uri" query)) 1)
    then invalid_request_page invalid_redirect_uri (some client_id)
    else validate_redirect q query client_id client (get "redirect_uri" query)

abbrev pub single_resource : Query → Option String
single_resource query =
    if eqb (length (get_all "resource" query)) 1 then get "resource" query else none

validate_client_id : Reads → Query → Option String → AuthorizeValidation
unfolding validate_client
validate_client_id q query none = invalid_request_page bad_request none
validate_client_id q query (some client_id) =
    validate_client q query client_id
      (q.resolve_authorization_client client_id (single_resource query))

abbrev pub is_failure : Option LimitFailure → Bool
is_failure none = false
is_failure (some failure) = true

pub validate_authorize_request : Reads → Query → AuthorizeValidation
unfolding validate_client_id
validate_authorize_request q query =
    if not (is_yolo_enabled q.env)
      && is_failure (validate_oauth_parameter_set q.platform q.parse query)
    then invalid_request_page bad_request none
    else if not (eqb (length (get_all "client_id" query)) 1)
    then invalid_request_page bad_request none
    else validate_client_id q query (get "client_id" query)

pub record AuthorizationSubject : Type 0 where
  pub user_id : String
  pub session_id : String
  pub auth_time : ℕ

abbrev pub is_mcp : Option OauthResource → Bool
is_mcp none = false
is_mcp (some resource) = resource.mcp_enabled

pub payload_for : Reads → AuthorizeParams → AuthorizationSubject → Payload
payload_for q params subject = record {
  issuer = q.env.issuer;
  client_id = params.client_id;
  user_id = subject.user_id;
  redirect_uri = params.redirect_uri;
  scope = serialize_scopes params.scopes;
  resource = params.resource;
  resource_required = is_mcp (q.directory.resource_by_uri params.resource);
  metadata_fingerprint = params.client.metadata_fingerprint;
  code_challenge = params.code_challenge;
  nonce = params.nonce;
  auth_time = subject.auth_time;
  session_id = subject.session_id;
}

-- The code is the random text, and the object is the one that its hash names.
pub issue_authorization_code :
    Reads
    → AuthorizeParams
    → AuthorizationSubject
    → (code : String) → (now : ℕ) → (String → Storage Payload)
    → String
    → Storage Payload
unfolding payload_for
issue_authorization_code q params subject code now codes =
    let name = hash_opaque_token q.platform code in
    put name
      (OneTime.store (payload_for q params subject) TokenTtl.authorization_code now (codes name))
      codes
