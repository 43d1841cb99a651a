-- ===== src/Oauth/Pkce/Tests.antt =====
-- Verifiers at a concrete platform.
-- About src/oauth/pkce.ts.
use keyforge.Prelude.{String, ◌≡◌, refl, ◌↔◌, true, string_eq, option_eq, nat_eq}
use keyforge.Security.Crypto.Sample.{sample, sample-IsEncoding}
use keyforge.Oauth.Pkce.{is_valid_code_verifier, compute_s256_challenge, verify_pkce}
use keyforge.Oauth.Pkce.Verify.{verify_pkce_iff}

abbrev verifier : String
verifier = "dBjftJeZ4CVP-mB92K27uhbUJU1p1r_wW1gFWFOEjXk"

verifier_is_valid : is_valid_code_verifier verifier ≡ true
unfolding is_valid_code_verifier
verifier_is_valid = refl

verify_pkce_iff_example :
    (verify_pkce sample verifier (compute_s256_challenge sample verifier) ≡ true) ↔ (
      (is_valid_code_verifier verifier ≡ true)
      × (compute_s256_challenge sample verifier ≡ compute_s256_challenge sample verifier))
verify_pkce_iff_example =
    verify_pkce_iff sample verifier (compute_s256_challenge sample verifier) sample-IsEncoding
