-- ===== src/Oauth/Redirect/Policy.antt =====
-- What an allowed resource indicator and a registered redirect URI look like.
-- About src/security/redirect-uri.ts and src/oauth/redirect.ts.
use keyforge.Prelude.{
  String, ◌≡◌, refl, ◌≢◌, ◌↔◌, ◌⊎◌, inl, inr, Bool, true, false, ◌&&◌, ◌||◌, Option, none, some,
  List, arith, eq_iff, if◌then◌else◌, Bool-cases, Option-cases, any, includes, any-true, any_of_mem,
  &&-left, &&-right, IsMember, includes_iff, string_eq, option_eq, nat_eq,
}
use keyforge.Oauth.Redirect.{
  Url, ParseUrl, safe_resource, is_safe_resource_uri, is_mcp_resource_uri_allowed, mcp_transport,
  is_https, loopback_ip, same_but_port, matches_loopback_redirect_except_port,
  is_registered_redirect_uri,
}

-- An HTTPS URL with a host, and without credentials, query or fragment.
pub record IsPlainHttps (url : Url) : Type 0 where
  pub protocol : url.protocol ≡ "https:"
  pub hostname : url.hostname ≢ ""
  pub username : url.username ≡ ""
  pub password : url.password ≡ ""
  pub search : url.search ≡ ""
  pub hash : url.hash ≡ ""

https-ne :
    (url : Url) → url.protocol ≡ "https:" → (url.protocol ≢ "http:") × (url.protocol ≢ "urn:")
https-ne url h = ground (arith, eq_iff "https:" "http:", eq_iff "https:" "urn:")

plain_of_parsed :
    (u : Option Url)
    → (if safe_resource u then mcp_transport u else false) ≡ true
    → is_https u ≡ true
    → (url : Url) × (u ≡ some url) × IsPlainHttps url
unfolding safe_resource
plain_of_parsed none h k = cc
plain_of_parsed (some url) h k = (
  url,
  refl,
  ground (
    arith,
    eq_iff url.protocol "https:",
    eq_iff url.protocol "http:",
    eq_iff url.protocol "urn:",
    eq_iff url.hostname "",
    eq_iff url.username "",
    eq_iff url.password "",
    eq_iff url.search "",
    eq_iff url.hash "",
    eq_iff "https:" "http:",
    eq_iff "https:" "urn:",
  ),
)

-- Outside the local environment a resource indicator for a remote protocol server is allowed only if
-- it parses as an HTTPS URL with a host, and without credentials, query or fragment.
pub is_mcp_resource_uri_allowed-IsPlainHttps :
    (parse : ParseUrl) (environment raw : String)
    → environment ≢ "local"
    → is_mcp_resource_uri_allowed parse environment raw ≡ true
    → (url : Url) × (parse raw ≡ some url) × IsPlainHttps url
unfolding is_mcp_resource_uri_allowed is_safe_resource_uri
is_mcp_resource_uri_allowed-IsPlainHttps parse environment raw remote h =
    plain_of_parsed (parse raw) (ground arith) (ground (arith, eq_iff environment "local"))

-- Two URLs over plain HTTP to one loopback address that agree but for the port.
pub record AreSameButPort (registered presented : Url) : Type 0 where
  pub registered_http : registered.protocol ≡ "http:"
  pub presented_http : presented.protocol ≡ "http:"
  pub loopback : (presented.hostname ≡ "127.0.0.1") ⊎ (presented.hostname ≡ "[::1]")
  pub hostname : registered.hostname ≡ presented.hostname
  pub username : registered.username ≡ presented.username
  pub password : registered.password ≡ presented.password
  pub pathname : registered.pathname ≡ presented.pathname
  pub search : registered.search ≡ presented.search
  pub hash : registered.hash ≡ presented.hash

loopback_ip-some :
    (u : Option Url) (url : Url)
    → (loopback_ip u ≡ some url) ↔ (
        (u ≡ some url)
        × (url.protocol ≡ "http:")
        × ((url.hostname ≡ "127.0.0.1") ⊎ (url.hostname ≡ "[::1]")))
loopback_ip-some none url = ground arith
loopback_ip-some (some v) url =
    ground
      (arith, eq_iff v.protocol "http:", eq_iff v.hostname "127.0.0.1", eq_iff v.hostname "[::1]")

same_parts :
    (r p : Url)
    → (r.protocol ≡ "http:") × ((r.hostname ≡ "127.0.0.1") ⊎ (r.hostname ≡ "[::1]"))
    → (p.protocol ≡ "http:") × ((p.hostname ≡ "127.0.0.1") ⊎ (p.hostname ≡ "[::1]"))
    → (same_but_port (some r) (some p) ≡ true) ↔ AreSameButPort r p
unfolding same_but_port
same_parts r p a b = ground (
  arith,
  eq_iff r.hostname p.hostname,
  eq_iff r.username p.username,
  eq_iff r.password p.password,
  eq_iff r.pathname p.pathname,
  eq_iff r.search p.search,
  eq_iff r.hash p.hash,
)

same_but_port_to :
    (u v : Option Url)
    → same_but_port (loopback_ip u) (loopback_ip v) ≡ true
    → (r : Url) × (p : Url) × (u ≡ some r) × (v ≡ some p) × AreSameButPort r p
unfolding same_but_port
same_but_port_to u v h = elim (Option-cases (loopback_ip u)) [
  | inl a ↦ cc (rw a at h)
  | inr (r, a) ↦ elim (Option-cases (loopback_ip v)) [
    | inl b ↦ cc (rw (a, b) at h)
    | inr (p, b) ↦
        (let x = (loopback_ip-some u r).0 a in
          let y = (loopback_ip-some v p).0 b in
          (r, p, x.0, y.0, (same_parts r p (x.1, x.2) (y.1, y.2)).0 (rw (a, b) at h)))
  ]
]

same_but_port_from :
    (u v : Option Url) (r p : Url)
    → u ≡ some r
    → v ≡ some p
    → AreSameButPort r p
    → same_but_port (loopback_ip u) (loopback_ip v) ≡ true
same_but_port_from u v r p eu ev s =
    let hosts : (r.hostname ≡ "127.0.0.1") ⊎ (r.hostname ≡ "[::1]") = rw s.hostname s.loopback in
    let a = (loopback_ip-some u r).1 (eu, s.registered_http, hosts) in
    let b = (loopback_ip-some v p).1 (ev, s.presented_http, s.loopback) in
    rw (a, b) ((same_parts r p (s.registered_http, hosts) (s.presented_http, s.loopback)).1 s)

-- A registered URI that the presented one may stand for.
abbrev pub Covers : ParseUrl → String → String → Type 0
Covers parse presented registered =
    (r : Url) × (p : Url) × (parse registered ≡ some r)
    × (parse presented ≡ some p)
    × AreSameButPort r p

-- A redirect URI is registered exactly if it is one of the client's, or the client is one of those
-- that a metadata document describes and the URI agrees with one of its plain HTTP loopback
-- addresses in all but the port.
pub is_registered_redirect_uri_iff :
    (parse : ParseUrl) (uris : List String) (is_metadata_client : Bool) (presented : String)
    → (is_registered_redirect_uri parse uris is_metadata_client presented ≡ true) ↔ (
        IsMember presented uris
        ⊎ ((is_metadata_client ≡ true)
            × ((registered : String) × IsMember registered uris
                × Covers parse presented registered)))
unfolding is_registered_redirect_uri matches_loopback_redirect_except_port
is_registered_redirect_uri_iff parse uris is_metadata_client presented = (to, from)
  where
    covered : String → Bool
    covered registered =
        same_but_port (loopback_ip (parse registered)) (loopback_ip (parse presented))

    metadata :
        (is_metadata_client && any covered uris) ≡ true
        → (is_metadata_client ≡ true)
          × ((registered : String) × IsMember registered uris × Covers parse presented registered)
    metadata h =
        let (registered, m, e) =
          any-true covered uris (&&-right is_metadata_client (any covered uris) h) in
        (
          &&-left is_metadata_client (any covered uris) h,
          (registered, m, same_but_port_to (parse registered) (parse presented) e),
        )

    to :
        (includes uris presented || (is_metadata_client && any covered uris)) ≡ true
        → IsMember presented uris
          ⊎ ((is_metadata_client ≡ true)
              × ((registered : String) × IsMember registered uris
                  × Covers parse presented registered))
    to h = elim (Bool-cases (includes uris presented)) [
      | inl exact ↦ inl ((includes_iff uris presented).0 exact)
      | inr other ↦ inr (metadata (rw other at h))
    ]

    from :
        IsMember presented uris
          ⊎ ((is_metadata_client ≡ true)
              × ((registered : String) × IsMember registered uris
                  × Covers parse presented registered))
        → (includes uris presented || (is_metadata_client && any covered uris)) ≡ true
    from (inl m) = rw ((includes_iff uris presented).1 m)
    from (inr (c, (registered, m, (r, p, eu, ev, s)))) = ground (
      arith,
      c,
      any_of_mem covered uris registered m
          (same_but_port_from (parse registered) (parse presented) r p eu ev s),
    )
