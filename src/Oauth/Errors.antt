-- ===== src/Oauth/Errors.antt =====
-- src/security/errors.ts: an OAuthError is its code. Descriptions, details and the status that a
-- few calls override are texts and numbers of the answer, and are left out.
use keyforge.Prelude.{Bool, true, false, ◌≡◌, refl}

pub data OauthErrorCode : Type 0 where
  invalid_request invalid_client invalid_grant unauthorized_client unsupported_grant_type :
      OauthErrorCode
  unsupported_response_type invalid_scope invalid_target access_denied server_error : OauthErrorCode
  temporarily_unavailable authorization_pending slow_down expired_token : OauthErrorCode
  login_required consent_required interaction_required : OauthErrorCode

-- A call that may throw.
pub data Attempt {ℓ} (A : Type ℓ) : Type ℓ where
  thrown : OauthErrorCode → Attempt A
  returned : A → Attempt A

abbrev pub require : (condition : Bool) → (otherwise : OauthErrorCode) → Attempt (Unit {0})
require false otherwise = thrown otherwise
require true otherwise = returned tt

abbrev pub ◌>>=◌ {ℓ κ} :
    {A : Type ℓ} {B : Type κ} → (first : Attempt A) → (A → Attempt B) → Attempt B
thrown code >>= next = thrown code
returned value >>= next = next value

abbrev pub ◌>>◌ {ℓ κ} :
    {A : Type ℓ} {B : Type κ} → (first : Attempt A) → (next : Attempt B) → Attempt B
first >> next = first >>= λ value. next

infixl 5 ◌>>=◌ ◌>>◌
-- A chain succeeds exactly if its first step does and the rest does with its result.
pub >>=-eq-returned {ℓ κ} :
    {A : Type ℓ} {B : Type κ} (m : Attempt A) (f : A → Attempt B) {b : B}
    → (m >>= f) ≡ returned b
    → (a : A) × (m ≡ returned a) × (f a ≡ returned b)
>>=-eq-returned (returned a) f h = (a, refl, h)
>>=-eq-returned (thrown e) f h = cc

pub >>=-returned {ℓ κ} :
    {A : Type ℓ} {B : Type κ} (m : Attempt A) (f : A → Attempt B) {a : A} {b : B}
    → m ≡ returned a
    → f a ≡ returned b
    → (m >>= f) ≡ returned b
>>=-returned m f e h = rw e h

pub require-returned : (b : Bool) (e : OauthErrorCode) → require b e ≡ returned tt → b ≡ true
require-returned true e h = refl
require-returned false e h = cc

pub returned_injective {ℓ} : {A : Type ℓ} (a b : A) → returned a ≡ returned b → a ≡ b
returned_injective a b h = cc
