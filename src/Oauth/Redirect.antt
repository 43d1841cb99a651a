-- ===== src/Oauth/Redirect.antt =====
-- src/security/redirect-uri.ts and src/oauth/redirect.ts. `new URL` is the platform's: it is a
-- parameter, `none` where the constructor throws.
pub mod Policy
pub mod Tests
use keyforge.Prelude.{
  ℕ, ◌+◌, ◌-◌, String, Bool, true, false, not, ◌&&◌, ◌||◌, Option, none, some, List, [], ◌∷◌, map,
  leb, eqb, if◌then◌else◌, length, any, all, includes, ◌==◌, ◌!=◌, string_eq, option_eq, is_upper,
  is_lower, is_alphanumeric, nat_eq, codes,
}

-- The components of a parsed URL.
pub record Url : Type 0 where
  pub protocol : String
  pub username : String
  pub password : String
  pub hostname : String
  pub pathname : String
  pub search : String
  pub hash : String

abbrev pub ParseUrl : Type 0
ParseUrl = String → Option Url

abbrev pub is_loopback : String → Bool
is_loopback hostname = hostname == "localhost" || hostname == "127.0.0.1" || hostname == "[::1]"

abbrev has_credentials_or_fragment : Url → Bool
has_credentials_or_fragment url = url.hash != "" || url.username != "" || url.password != ""

-- `slice(0, -1)`.
abbrev drop_last : List ℕ → List ℕ
drop_last [] = []
drop_last (c ∷ []) = []
drop_last (c ∷ d ∷ cs) = c ∷ drop_last (d ∷ cs)

abbrev lower : ℕ → ℕ
lower c = if is_upper c then c + 32 else c

abbrev is_scheme_character : ℕ → Bool
is_scheme_character c = is_alphanumeric c || eqb c b'+' || eqb c b'.' || eqb c b'-'

-- /^[a-z][a-z0-9+.-]{2,127}$/i.
abbrev is_scheme : List ℕ → Bool
is_scheme [] = false
is_scheme (c ∷ cs) =
    (is_upper c || is_lower c)
    && all is_scheme_character cs
    && leb 2 (length cs)
    && leb (length cs) 127

abbrev same_codes : List ℕ → List ℕ → Bool
same_codes [] [] = true
same_codes (c ∷ cs) (d ∷ ds) = eqb c d && same_codes cs ds
same_codes _ _ = false

abbrev is_blocked : List ℕ → Bool
is_blocked scheme =
    any (λ name. same_codes (codes name) (map lower scheme))
      ("javascript" ∷ "data" ∷ "file" ∷ "vbscript" ∷ [])

-- A native application's scheme.
abbrev is_native_scheme : List ℕ → Bool
is_native_scheme scheme = includes scheme b'.' && is_scheme scheme && not (is_blocked scheme)

safe_redirect : Option Url → Bool
safe_redirect none = false
safe_redirect (some url) =
    if has_credentials_or_fragment url
    then false
    else if url.protocol == "https:"
    then url.hostname != ""
    else if url.protocol == "http:"
    then is_loopback url.hostname
    else is_native_scheme (drop_last (codes url.protocol))

pub is_safe_oauth_redirect_uri : ParseUrl → String → Bool
unfolding safe_redirect
is_safe_oauth_redirect_uri parse raw = safe_redirect (parse raw)

safe_resource : Option Url → Bool
safe_resource none = false
safe_resource (some url) =
    if has_credentials_or_fragment url
    then false
    else (url.protocol == "https:" && url.hostname != "")
      || (url.protocol == "http:" && is_loopback url.hostname)
      || url.protocol == "urn:"

pub is_safe_resource_uri : ParseUrl → String → Bool
unfolding safe_resource
is_safe_resource_uri parse raw = safe_resource (parse raw)

abbrev mcp_transport : Option Url → Bool
mcp_transport none = false
mcp_transport (some url) =
    url.search == ""
    && (url.protocol == "https:" || (url.protocol == "http:" && is_loopback url.hostname))

-- The second parse is of a text that was parsed before, so it does not throw.
pub is_safe_mcp_resource_uri : ParseUrl → String → Bool
unfolding is_safe_resource_uri
is_safe_mcp_resource_uri parse raw =
    if is_safe_resource_uri parse raw then mcp_transport (parse raw) else false

abbrev is_https : Option Url → Bool
is_https none = false
is_https (some url) = url.protocol == "https:"

pub is_mcp_resource_uri_allowed : ParseUrl → (environment raw : String) → Bool
unfolding is_safe_mcp_resource_uri
is_mcp_resource_uri_allowed parse environment raw =
    if is_safe_mcp_resource_uri parse raw
    then is_https (parse raw) || environment == "local"
    else false

-- `isLoopbackIpRedirectUri`: here localhost is no loopback.
abbrev loopback_ip : Option Url → Option Url
loopback_ip none = none
loopback_ip (some url) =
    if url.protocol != "http:"
    then none
    else if url.hostname == "127.0.0.1" || url.hostname == "[::1]"
    then some url
    else none

same_but_port : Option Url → Option Url → Bool
same_but_port (some registered) (some presented) =
    registered.hostname == presented.hostname
    && registered.username == presented.username
    && registered.password == presented.password
    && registered.pathname == presented.pathname
    && registered.search == presented.search
    && registered.hash == presented.hash
same_but_port _ _ = false

pub matches_loopback_redirect_except_port : ParseUrl → (registered presented : String) → Bool
unfolding same_but_port
matches_loopback_redirect_except_port parse registered presented =
    same_but_port (loopback_ip (parse registered)) (loopback_ip (parse presented))

unfoldable pub is_registered_redirect_uri :
    ParseUrl
    → (redirect_uris : List String) → (is_metadata_client : Bool) → (redirect_uri : String) → Bool
is_registered_redirect_uri parse redirect_uris is_metadata_client redirect_uri =
    includes redirect_uris redirect_uri
    || (is_metadata_client
        && any (λ registered. matches_loopback_redirect_except_port parse registered redirect_uri)
            redirect_uris)
