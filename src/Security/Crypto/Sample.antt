-- ===== src/Security/Crypto/Sample.antt =====
-- A platform at which the hypotheses on the encoding hold: each character is written in unary.
-- About src/security/crypto.ts and src/utils/base64url.ts.
use Prim.Native.Char.{code}
use mathlib.Core.Path.{ap₂}
use text.Mathlib.TextEquality.{Char-path}
use keyforge.Prelude.{
  ℕ, zero, suc, String, ◌≡◌, refl, sym, ◌≢◌, List, [], ◌∷◌, arith, string_eq, option_eq, nat_eq,
}
use keyforge.Security.Crypto.{Platform, IsEncoding}
use keyforge.Security.Crypto.Comparison.{AreBytes}

abbrev tally : ℕ → List ℕ → List ℕ
tally zero rest = 0 ∷ rest
tally (suc n) rest = 1 ∷ tally n rest

abbrev tallies : String → List ℕ
tallies String.[] = []
tallies (String.◌∷◌ c s) = tally (code c) (tallies s)

abbrev pub sample : Platform
sample = record {
  utf8 = tallies;
  sha256 = λ bytes. bytes;
  btoa = λ bytes. "";
  bytes_to_hex = λ bytes. "";
}

tally_bytes : (n : ℕ) (rest : List ℕ) → AreBytes rest → AreBytes (tally n rest)
tally_bytes zero rest h = (omega arith, h)
tally_bytes (suc n) rest h = (omega arith, tally_bytes n rest h)

tallies_bytes : (s : String) → AreBytes (tallies s)
tallies_bytes String.[] = tt
tallies_bytes (String.◌∷◌ c s) = tally_bytes (code c) (tallies s) (tallies_bytes s)

tally_injective : (m n : ℕ) (xs ys : List ℕ) → tally m xs ≡ tally n ys → (m ≡ n) × (xs ≡ ys)
tally_injective zero zero xs ys h = (refl, ground arith)
tally_injective zero (suc n) xs ys h = absurd (ground arith)
tally_injective (suc m) zero xs ys h = absurd (ground arith)
tally_injective (suc m) (suc n) xs ys h = ground (arith, tally_injective m n xs ys)

nil-ne-tally : (n : ℕ) (rest : List ℕ) → [] ≢ tally n rest
nil-ne-tally zero rest e = cc
nil-ne-tally (suc n) rest e = cc

tallies_injective : (s t : String) → tallies s ≡ tallies t → s ≡ t
tallies_injective String.[] String.[] h = refl
tallies_injective String.[] (String.◌∷◌ d t) h = absurd (nil-ne-tally (code d) (tallies t) h)
tallies_injective (String.◌∷◌ c s) String.[] h = absurd (nil-ne-tally (code c) (tallies s) (sym h))
tallies_injective (String.◌∷◌ c s) (String.◌∷◌ d t) h =
    let (same, rest) = tally_injective (code c) (code d) (tallies s) (tallies t) h in
    ap₂ (λ a b. String.◌∷◌ a b) (Char-path c d same) (tallies_injective s t rest)

pub sample-IsEncoding : IsEncoding sample
sample-IsEncoding = record { bytes = tallies_bytes; injective = tallies_injective }
