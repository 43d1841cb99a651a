-- ===== src/Security/Crypto/Comparison.antt =====
-- The comparison that runs in constant time, and equality.
-- About src/security/crypto.ts and src/utils/base64url.ts.
use Prim.Native.Nat.{bit_or, bit_xor}
use keyforge.Prelude.{
  ℕ, ◌<◌, ◌≡◌, ◌↔◌, ap, String, true, List, [], ◌∷◌, All, length, arith, Bool-cases, ◌!=◌, nat_eq,
  inl, inr,
}
use keyforge.Security.Crypto.{
  Platform, IsEncoding, differences, timing_safe_equal, timing_safe_equal_string,
}
use keyforge.Security.Crypto.Bytes.{bit_xor_byte, bit_or_byte}

abbrev pub AreBytes : List ℕ → Type 0
AreBytes = All (λ b. b < 256)

differences_iff :
    (diff : ℕ) (a b : List ℕ)
    → diff < 256
    → AreBytes a
    → AreBytes b
    → length a ≡ length b
    → (differences diff a b ≡ 0) ↔ ((diff ≡ 0) × (a ≡ b))
unfolding differences
differences_iff diff [] [] d ha hb l = ground arith
differences_iff diff [] (y ∷ ys) d ha hb l = absurd (omega arith)
differences_iff diff (x ∷ xs) [] d ha hb l = absurd (omega arith)
differences_iff diff (x ∷ xs) (y ∷ ys) d (hx, ha) (hy, hb) l =
    let (small, same) = bit_xor_byte x y hx hy in
    let (below, both) = bit_or_byte diff (bit_xor x y) d small in
    let (to, from) = differences_iff (bit_or diff (bit_xor x y)) xs ys below ha hb (omega arith) in
    (λ h. ground (arith, to, both, same), λ h. ground (arith, from, both, same))

-- On arrays of bytes `timingSafeEqual` answers true exactly if the arrays are equal.
pub timing_safe_equal_iff :
    (a b : List ℕ) → AreBytes a → AreBytes b → (timing_safe_equal a b ≡ true) ↔ (a ≡ b)
unfolding timing_safe_equal
timing_safe_equal_iff a b ha hb = elim (Bool-cases (length a != length b)) [
  | inl differ ↦ (λ h. ground arith, λ h. ground (arith, ap length h))
  | inr same ↦ ground (arith, differences_iff 0 a b (omega arith) ha hb)
]

-- On texts it answers true exactly if the texts are equal.
pub timing_safe_equal_string_iff :
    (p : Platform) (a b : String) → IsEncoding p → (timing_safe_equal_string p a b ≡ true) ↔ (a ≡ b)
unfolding timing_safe_equal_string
timing_safe_equal_string_iff p a b e =
    let (to, from) = timing_safe_equal_iff (p.utf8 a) (p.utf8 b) (e.bytes a) (e.bytes b) in
    (λ h. e.injective a b (to h), λ h. from (ap (λ s. p.utf8 s) h))
