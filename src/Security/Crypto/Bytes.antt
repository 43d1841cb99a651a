-- ===== src/Security/Crypto/Bytes.antt =====
-- Facts about `bit_or` and `bit_xor` on bytes, by evaluation of all pairs.
-- About src/security/crypto.ts and src/utils/base64url.ts.
use Prim.Native.Nat.{bit_or, bit_xor}
use keyforge.Prelude.{
  ℕ, zero, suc, ◌<◌, ◌≡◌, ◌↔◌, refl, Bool, true, ◌&&◌, ltb, eqb, arith, if◌then◌else◌,
}

-- Does a test pass on every number below a bound?
passes : (test : ℕ → Bool) → (bound : ℕ) → Bool
passes test zero = true
passes test (suc bound) = passes test bound && test bound

passes_at :
    (test : ℕ → Bool) {bound : ℕ} → passes test bound ≡ true → (n : ℕ) → n < bound → test n ≡ true
unfolding passes
passes_at test {bound = zero} all n below = absurd (omega arith)
passes_at test {bound = suc bound} all n below =
    ground (arith, λ (h : passes test bound ≡ true). passes_at test {bound = bound} h n)

abbrev xor_case : ℕ → ℕ → Bool
xor_case a b =
    ltb (bit_xor a b) 256 && (if eqb a b then eqb (bit_xor a b) 0 else ltb 0 (bit_xor a b))

abbrev or_case : ℕ → ℕ → Bool
or_case a b =
    ltb (bit_or a b) 256 && (if eqb a 0 && eqb b 0 then eqb (bit_or a b) 0 else ltb 0 (bit_or a b))

xor_table : passes (λ a. passes (xor_case a) 256) 256 ≡ true
unfolding passes
xor_table = refl

or_table : passes (λ a. passes (or_case a) 256) 256 ≡ true
unfolding passes
or_table = refl

module _ (p : ℕ → ℕ → Bool) (table : passes (λ a. passes (p a) 256) 256 ≡ true) where
  look_up : (a b : ℕ) → a < 256 → b < 256 → p a b ≡ true
  look_up a b h k = passes_at (p a) (passes_at (λ x. passes (p x) 256) table a h) b k

pub bit_xor_byte :
    (a b : ℕ) → a < 256 → b < 256 → (bit_xor a b < 256) × ((bit_xor a b ≡ 0) ↔ (a ≡ b))
bit_xor_byte a b h k = ground (arith, look_up xor_case xor_table a b h k)

pub bit_or_byte :
    (a b : ℕ) → a < 256 → b < 256 → (bit_or a b < 256) × ((bit_or a b ≡ 0) ↔ ((a ≡ 0) × (b ≡ 0)))
bit_or_byte a b h k = ground (arith, look_up or_case or_table a b h k)
