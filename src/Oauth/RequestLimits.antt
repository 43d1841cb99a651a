-- ===== src/Oauth/RequestLimits.antt =====
-- src/oauth/client-identifier.ts and src/oauth/request-limits.ts. TextEncoder and `new URL` are the
-- platform's.
pub mod Accepted
pub mod Tests
use Prim.Native.Char.{code}
use Prim.Native.String
use keyforge.Prelude.{
  ℕ, zero, suc, ◌+◌, ◌*◌, String, Bool, true, false, not, ◌&&◌, ◌||◌, Option, none, some, List, [],
  ◌∷◌, ltb, leb, eqb, length, any, all, includes, if◌then◌else◌, ◌==◌, ◌!=◌, string_eq,
  is_alphanumeric, is_base64_url, codes,
}
use keyforge.Security.Crypto.{Platform}
use keyforge.Oauth.Redirect.{Url, ParseUrl}

abbrev pub client_identifier_url_max_bytes : ℕ
client_identifier_url_max_bytes = 2048

abbrev pub byte_length : Platform → String → ℕ
byte_length p s = length (p.utf8 s)

-- The class [A-Za-z0-9._~-].
abbrev is_identifier_character : ℕ → Bool
is_identifier_character c =
    is_alphanumeric c || eqb c b'.' || eqb c b'_' || eqb c b'~' || eqb c b'-'

-- STATIC_CLIENT_ID_PATTERN.
abbrev is_static_identifier : List ℕ → Bool
is_static_identifier [] = false
is_static_identifier (c ∷ cs) =
    is_alphanumeric c && all is_identifier_character cs && leb (length cs) 127

-- Does a text start with `%2` and one of two letters?
abbrev starts_encoded : (lower upper : ℕ) → List ℕ → Bool
starts_encoded lower upper (c ∷ d ∷ e ∷ cs) =
    eqb c b'%' && eqb d b'2' && (eqb e lower || eqb e upper)
starts_encoded lower upper _ = false

-- /(?:\*|%2a)/i.
abbrev has_wildcard : List ℕ → Bool
has_wildcard [] = false
has_wildcard (c ∷ cs) = eqb c b'*' || starts_encoded b'a' b'A' (c ∷ cs) || has_wildcard cs

-- `split("/")`.
abbrev add_first : ℕ → List (List ℕ) → List (List ℕ)
add_first c [] = (c ∷ []) ∷ []
add_first c (cs ∷ rest) = (c ∷ cs) ∷ rest

abbrev segments : List ℕ → List (List ℕ)
segments [] = [] ∷ []
segments (c ∷ cs) = if eqb c b'/' then [] ∷ segments cs else add_first c (segments cs)

abbrev is_dots : List ℕ → Bool
is_dots (c ∷ []) = eqb c b'.'
is_dots (c ∷ d ∷ []) = eqb c b'.' && eqb d b'.'
is_dots _ = false

-- What is left after one dot, plain or encoded, if there is one.
abbrev drop_dot : List ℕ → Option (List ℕ)
drop_dot [] = none
drop_dot (c ∷ d ∷ e ∷ cs) =
    if eqb c b'.'
    then some (d ∷ e ∷ cs)
    else if starts_encoded b'e' b'E' (c ∷ d ∷ e ∷ [])
    then some cs
    else none
drop_dot (c ∷ cs) = if eqb c b'.' then some cs else none

abbrev is_end : Option (List ℕ) → Bool
is_end (some []) = true
is_end _ = false

abbrev is_end_after_dot : Option (List ℕ) → Bool
is_end_after_dot none = false
is_end_after_dot (some cs) = is_end (drop_dot cs)

-- One or two dots, plain or encoded.
abbrev is_hidden_dots : List ℕ → Bool
is_hidden_dots cs = is_end (drop_dot cs) || is_end_after_dot (drop_dot cs)

abbrev drop : ℕ → List ℕ → List ℕ
drop zero cs = cs
drop (suc n) [] = []
drop (suc n) (c ∷ cs) = drop n cs

abbrev from_slash : List ℕ → List ℕ
from_slash [] = []
from_slash (c ∷ cs) = if eqb c b'/' then c ∷ cs else from_slash cs

abbrev is_plain_url : Url → Bool
is_plain_url url =
    url.protocol == "https:"
    && url.hostname != ""
    && url.username == ""
    && url.password == ""
    && url.hash == ""
    && url.pathname != ""
    && url.pathname != "/"
    && url.search == ""

-- The checks once the text has parsed; a text with `?` or `#` is refused before.
abbrev checked_url : (raw : List ℕ) → Option Url → Option Url
checked_url raw none = none
checked_url raw (some url) =
    if not (is_plain_url url)
    then none
    else if any is_dots (segments (codes url.pathname))
    then none
    else if any is_hidden_dots (segments (from_slash (drop 8 raw)))
    then none
    else some url

pub parse_client_identifier_url : Platform → ParseUrl → (raw : String) → Option Url
parse_client_identifier_url p parse raw =
    if ltb client_identifier_url_max_bytes (byte_length p raw)
    then none
    else if any (λ c. eqb c b'?' || eqb c b'#') (codes raw) || has_wildcard (codes raw)
    then none
    else checked_url (codes raw) (parse raw)

abbrev is_some : Option Url → Bool
is_some none = false
is_some (some url) = true

unfoldable pub is_valid_oauth_client_id : Platform → ParseUrl → (raw : String) → Bool
unfolding parse_client_identifier_url
is_valid_oauth_client_id p parse raw =
    is_static_identifier (codes raw) || is_some (parse_client_identifier_url p parse raw)

abbrev pub oauth_form_max_parameters : ℕ
oauth_form_max_parameters = 32

abbrev pub oauth_parameter_name_max_bytes : ℕ
oauth_parameter_name_max_bytes = 64

abbrev pub oauth_parameter_default_max_bytes : ℕ
oauth_parameter_default_max_bytes = 2048

-- OAUTH_PARAMETER_MAX_BYTES.
abbrev oauth_parameter_max_bytes : List (String × ℕ)
oauth_parameter_max_bytes =
    ("client_id", client_identifier_url_max_bytes)
    ∷ ("client_secret", 512)
    ∷ ("grant_type", 128)
    ∷ ("client_assertion_type", 128)
    ∷ ("client_assertion", 16 * 1024)
    ∷ ("code", 512)
    ∷ ("redirect_uri", 2048)
    ∷ ("code_verifier", 128)
    ∷ ("refresh_token", 512)
    ∷ ("device_code", 512)
    ∷ ("scope", 4096)
    ∷ ("resource", 2048)
    ∷ ("token", 16 * 1024)
    ∷ ("token_type_hint", 64)
    ∷ ("response_type", 64)
    ∷ ("state", 2048)
    ∷ ("nonce", 512)
    ∷ ("code_challenge", 128)
    ∷ ("code_challenge_method", 64)
    ∷ ("prompt", 128)
    ∷ ("max_age", 20)
    ∷ ("id_token_hint", 16 * 1024)
    ∷ ("post_logout_redirect_uri", 2048)
    ∷ ("_keyforge_reauth", 32)
    ∷ []

-- The names that every object inherits: an index by one of them finds something that is no number, so
-- that the default does not apply and no length compares with it.
abbrev inherited_names : List String
inherited_names =
    "constructor" ∷ "toString" ∷ "toLocaleString" ∷ "valueOf" ∷ "hasOwnProperty" ∷ "isPrototypeOf"
    ∷ "propertyIsEnumerable" ∷ "__proto__" ∷ "__defineGetter__" ∷ "__defineSetter__"
    ∷ "__lookupGetter__" ∷ "__lookupSetter__" ∷ []

abbrev lookup_or : ℕ → (name : String) → List (String × ℕ) → ℕ
lookup_or default name [] = default
lookup_or default name ((key, n) ∷ rest) = if key == name then n else lookup_or default name rest

-- For a name that is not inherited.
unfoldable pub oauth_parameter_maximum_bytes : (name : String) → ℕ
oauth_parameter_maximum_bytes name =
    lookup_or oauth_parameter_default_max_bytes name oauth_parameter_max_bytes

pub data LimitFailure : Type 0 where
  invalid_name invalid_value value_too_long too_many_parameters : LimitFailure

-- OAUTH_PARAMETER_NAME.
abbrev is_name_character : ℕ → Bool
is_name_character c = is_alphanumeric c || eqb c b'.' || eqb c b'_' || eqb c b'-'

-- REAUTH_CONTINUATION_PATTERN.
abbrev is_continuation : List ℕ → Bool
is_continuation cs = all is_base64_url cs && eqb (length cs) 32

abbrev is_invalid_name : Platform → String → Bool
is_invalid_name p name =
    name == ""
    || ltb oauth_parameter_name_max_bytes (byte_length p name)
    || not (all is_name_character (codes name) && leb 1 (length (codes name)))

abbrev is_short : Platform → (name value : String) → Bool
is_short p name value =
    not (includes inherited_names name)
    && leb (byte_length p value) (oauth_parameter_maximum_bytes name)

unfoldable pub validate_oauth_parameter :
    Platform → ParseUrl → (name value : String) → Option LimitFailure
unfolding oauth_parameter_maximum_bytes is_valid_oauth_client_id
validate_oauth_parameter p parse name value =
    if is_invalid_name p name
    then some invalid_name
    else if name == "client_id" && not (is_valid_oauth_client_id p parse value)
    then some invalid_value
    else if name == "_keyforge_reauth" && not (is_continuation (codes value))
    then some invalid_value
    else if is_short p name value
    then none
    else some value_too_long

-- One parameter after another; `count` is how many came before.
abbrev or_next : Option LimitFailure → Option LimitFailure → Option LimitFailure
or_next (some failure) next = some failure
or_next none next = next

unfoldable pub validate_from :
    Platform → ParseUrl → (count : ℕ) → List (String × String) → Option LimitFailure
unfolding validate_oauth_parameter
validate_from p parse count [] = none
validate_from p parse count ((name, value) ∷ rest) =
    let next = validate_from p parse (count + 1) rest in
    if ltb oauth_form_max_parameters (count + 1)
    then some too_many_parameters
    else or_next (validate_oauth_parameter p parse name value) next

unfoldable pub validate_oauth_parameter_set :
    Platform → ParseUrl → List (String × String) → Option LimitFailure
unfolding validate_from
validate_oauth_parameter_set p parse parameters = validate_from p parse 0 parameters
