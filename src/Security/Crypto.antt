-- ===== src/Security/Crypto.antt =====
-- src/security/crypto.ts, src/utils/base64url.ts and src/tokens/token-hash.ts. What the platform
-- implements (TextEncoder, WebCrypto, btoa) is a record of functions, with its documented laws in a
-- second record; a text that is encoded is a `String` of characters. Password hashing (scrypt) and
-- the keyed digest are not modelled.
pub mod Bytes
pub mod Comparison
pub mod Sample
pub mod Tests
use Prim.Native.Char.{Char, code}
use Prim.Native.String
use Prim.Native.Nat.{bit_or, bit_xor}
use keyforge.Prelude.{
  ℕ, ◌<◌, String, Bool, true, false, Option, List, [], ◌∷◌, ◌≡◌, ◌&&◌, if◌then◌else◌, eqb, length,
  ◌!=◌, nat_eq, All,
}

pub record Platform : Type 0 where
  -- `TextEncoder.encode`.
  pub utf8 : String → List ℕ
  -- `crypto.subtle.digest("SHA-256", …)`.
  pub sha256 : List ℕ → List ℕ
  -- `btoa` of the binary string with these bytes.
  pub btoa : List ℕ → String
  -- `bytesToHex` of @noble/hashes.
  pub bytes_to_hex : List ℕ → String

-- UTF-8 yields bytes, and different texts have different encodings.
pub record IsEncoding (p : Platform) : Type 0 where
  pub bytes : (s : String) → All (λ b. b < 256) (p.utf8 s)
  pub injective : (s t : String) → p.utf8 s ≡ p.utf8 t → s ≡ t

-- The loop of `timingSafeEqual` over two arrays of one length.
differences : ℕ → List ℕ → List ℕ → ℕ
differences diff (x ∷ xs) (y ∷ ys) = differences (bit_or diff (bit_xor x y)) xs ys
differences diff _ _ = diff

pub timing_safe_equal : List ℕ → List ℕ → Bool
unfolding differences
timing_safe_equal a b = if length a != length b then false else eqb (differences 0 a b) 0

pub timing_safe_equal_string : Platform → String → String → Bool
timing_safe_equal_string p a b = timing_safe_equal (p.utf8 a) (p.utf8 b)

-- `replace(/\+/g, "-").replace(/\//g, "_")`.
abbrev url_char : Char → Char
url_char c = if eqb (code c) b'+' then "-" else if eqb (code c) b'/' then "_" else c

url_chars : String → String
url_chars String.[] = String.[]
url_chars (String.◌∷◌ c s) = String.◌∷◌ (url_char c) (url_chars s)

abbrev is_empty : String → Bool
is_empty String.[] = true
is_empty (String.◌∷◌ c s) = false

-- `replace(/=+$/, "")`.
strip_padding : String → String
strip_padding String.[] = String.[]
strip_padding (String.◌∷◌ c s) =
    let rest = strip_padding s in
    if eqb (code c) b'=' && is_empty rest then String.[] else String.◌∷◌ c rest

pub base64_url_encode : Platform → List ℕ → String
unfolding url_chars strip_padding
base64_url_encode p bytes = strip_padding (url_chars (p.btoa bytes))

-- `hashOpaqueToken`: the form in which opaque tokens are stored.
unfoldable pub hash_opaque_token : Platform → String → String
hash_opaque_token p token = p.bytes_to_hex (p.sha256 (p.utf8 token))
