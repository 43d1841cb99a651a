-- ===== src/Oauth/Pkce/Verify.antt =====
-- Which verifiers pass.
-- About src/oauth/pkce.ts.
use keyforge.Prelude.{String, ◌≡◌, ◌↔◌, true, arith, string_eq, option_eq, nat_eq}
use keyforge.Security.Crypto.{Platform, IsEncoding}
use keyforge.Security.Crypto.Comparison.{timing_safe_equal_string_iff}
use keyforge.Oauth.Pkce.{is_valid_code_verifier, compute_s256_challenge, verify_pkce}

-- If the encoding of texts as bytes is faithful, a verifier passes exactly if it has the form of one
-- and the challenge is its digest.
pub verify_pkce_iff :
    (p : Platform) (verifier challenge : String)
    → IsEncoding p
    → (verify_pkce p verifier challenge ≡ true)
      ↔ ((is_valid_code_verifier verifier ≡ true) × (compute_s256_challenge p verifier ≡ challenge))
unfolding verify_pkce
verify_pkce_iff p verifier challenge e =
    let (to, from) =
      timing_safe_equal_string_iff p (compute_s256_challenge p verifier) challenge e in
    ground (arith, to, from)
