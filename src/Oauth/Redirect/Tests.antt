-- ===== src/Oauth/Redirect/Tests.antt =====
-- URIs at concrete URLs.
-- About src/security/redirect-uri.ts and src/oauth/redirect.ts.
use keyforge.Prelude.{
  String, ◌≡◌, refl, ◌≢◌, ◌↔◌, ◌⊎◌, true, ◌||◌, none, some, [], ◌∷◌, arith, eq_iff, if◌then◌else◌,
  ◌==◌, IsMember, string_eq, option_eq, nat_eq,
}
use keyforge.Oauth.Redirect.{
  Url, ParseUrl, is_safe_resource_uri, is_safe_mcp_resource_uri, is_mcp_resource_uri_allowed,
  safe_resource, same_but_port, matches_loopback_redirect_except_port, is_registered_redirect_uri,
  is_safe_oauth_redirect_uri, safe_redirect,
}
use keyforge.Oauth.Redirect.Policy.{
  IsPlainHttps, Covers, is_mcp_resource_uri_allowed-IsPlainHttps, is_registered_redirect_uri_iff,
}

abbrev url : (protocol hostname pathname : String) → Url
url protocol hostname pathname = record {
  protocol = protocol;
  username = "";
  password = "";
  hostname = hostname;
  pathname = pathname;
  search = "";
  hash = "";
}

abbrev parse : ParseUrl
parse raw =
    if raw == "https://mcp.example/"
    then some (url "https:" "mcp.example" "/")
    else if raw == "http://127.0.0.1:7000/cb" || raw == "http://127.0.0.1/cb"
    then some (url "http:" "127.0.0.1" "/cb")
    else if raw == "com.example.app:/cb"
    then some (url "com.example.app:" "" "/cb")
    else none

native_is_safe : is_safe_oauth_redirect_uri parse "com.example.app:/cb" ≡ true
unfolding is_safe_oauth_redirect_uri safe_redirect
native_is_safe = refl

mcp_allowed : is_mcp_resource_uri_allowed parse "production" "https://mcp.example/" ≡ true
unfolding is_mcp_resource_uri_allowed is_safe_mcp_resource_uri is_safe_resource_uri safe_resource
mcp_allowed = refl

other_port :
    is_registered_redirect_uri parse ("http://127.0.0.1/cb" ∷ []) true "http://127.0.0.1:7000/cb"
    ≡ true
unfolding is_registered_redirect_uri matches_loopback_redirect_except_port same_but_port
other_port = refl

remote : ◌≢◌ {A = String} "production" "local"
remote = ground (arith, eq_iff "production" "local")

is_mcp_resource_uri_allowed-IsPlainHttps_example :
    (u : Url) × (parse "https://mcp.example/" ≡ some u) × IsPlainHttps u
is_mcp_resource_uri_allowed-IsPlainHttps_example =
    is_mcp_resource_uri_allowed-IsPlainHttps parse "production" "https://mcp.example/" remote
      mcp_allowed

is_registered_redirect_uri_iff_example :
    (is_registered_redirect_uri parse ("http://127.0.0.1/cb" ∷ []) true "http://127.0.0.1:7000/cb"
      ≡ true)
    ↔ (IsMember {A = String} "http://127.0.0.1:7000/cb" ("http://127.0.0.1/cb" ∷ [])
        ⊎ ((true ≡ true)
            × ((registered : String) × IsMember registered ("http://127.0.0.1/cb" ∷ [])
                × Covers parse "http://127.0.0.1:7000/cb" registered)))
is_registered_redirect_uri_iff_example =
    is_registered_redirect_uri_iff parse ("http://127.0.0.1/cb" ∷ []) true
      "http://127.0.0.1:7000/cb"
