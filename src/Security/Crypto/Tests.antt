-- ===== src/Security/Crypto/Tests.antt =====
-- The comparison at concrete values.
-- About src/security/crypto.ts and src/utils/base64url.ts.
use keyforge.Prelude.{ℕ, String, ◌≡◌, ◌↔◌, true, List, [], ◌∷◌, arith, string_eq, option_eq, nat_eq}
use keyforge.Security.Crypto.{timing_safe_equal, timing_safe_equal_string}
use keyforge.Security.Crypto.Comparison.{timing_safe_equal_iff, timing_safe_equal_string_iff}
use keyforge.Security.Crypto.Sample.{sample, sample-IsEncoding}

abbrev tag : List ℕ
tag = 1 ∷ 255 ∷ []

abbrev forged : List ℕ
forged = 1 ∷ 254 ∷ []

timing_safe_equal_iff_example : (timing_safe_equal tag forged ≡ true) ↔ (tag ≡ forged)
timing_safe_equal_iff_example = timing_safe_equal_iff tag forged (omega arith) (omega arith)

timing_safe_equal_string_iff_example :
    (timing_safe_equal_string sample "ab" "ac" ≡ true) ↔ (◌≡◌ {A = String} "ab" "ac")
timing_safe_equal_string_iff_example =
    timing_safe_equal_string_iff sample "ab" "ac" sample-IsEncoding
