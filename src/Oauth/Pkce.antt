-- ===== src/Oauth/Pkce.antt =====
-- src/oauth/pkce.ts.
pub mod Verify
pub mod Tests
use keyforge.Prelude.{
  ℕ, String, Bool, true, false, ◌&&◌, ◌||◌, codes, length, all, leb, eqb, is_alphanumeric,
  is_base64_url, if◌then◌else◌,
}
use keyforge.Security.Crypto.{Platform, base64_url_encode, timing_safe_equal_string}

-- The class [A-Za-z0-9\-._~].
abbrev is_unreserved : ℕ → Bool
is_unreserved c = is_alphanumeric c || eqb c b'-' || eqb c b'.' || eqb c b'_' || eqb c b'~'

-- /^[A-Za-z0-9\-._~]{43,128}$/.
unfoldable pub is_valid_code_verifier : String → Bool
is_valid_code_verifier verifier =
    all is_unreserved (codes verifier)
    && leb 43 (length (codes verifier))
    && leb (length (codes verifier)) 128

-- /^[A-Za-z0-9_-]{43}$/.
unfoldable pub is_valid_s256_challenge : String → Bool
is_valid_s256_challenge challenge =
    all is_base64_url (codes challenge) && eqb (length (codes challenge)) 43

pub compute_s256_challenge : Platform → String → String
compute_s256_challenge p verifier = base64_url_encode p (p.sha256 (p.utf8 verifier))

pub verify_pkce : Platform → (verifier challenge : String) → Bool
verify_pkce p verifier challenge =
    if is_valid_code_verifier verifier
    then timing_safe_equal_string p (compute_s256_challenge p verifier) challenge
    else false
