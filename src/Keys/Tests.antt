-- ===== src/Keys/Tests.antt =====
-- A pending key is activated.
-- About src/tokens/key-rotation.ts.
use keyforge.Prelude.{◌≡◌, ◌⊎◌, refl, none, some, [], ◌∷◌, string_eq, option_eq, nat_eq}
use keyforge.Keys.{
  StoredSigningKey, StoredKeyring, activate, replaced, activate_found, rotate_pending, next_keyring,
}
use keyforge.Keys.Sound.{IsSound, WasPublished, next_keyring-IsSound}

abbrev old : StoredSigningKey
old = record {
  kid = "k1";
  private_jwk = some "p1";
  public_jwk = "q1";
  created_at = 0;
  retired_at = none;
}

abbrev pending : StoredSigningKey
pending = record old { kid = "k2"; private_jwk = some "p2"; public_jwk = "q2" }

abbrev generated : StoredSigningKey
generated = record old { kid = "k3"; private_jwk = some "p3"; public_jwk = "q3" }

abbrev current : StoredKeyring
current = record {
  active_kid = "k1";
  pending_kid = some "k2";
  pending_since = some 100;
  keys = pending ∷ old ∷ [];
}

abbrev next : StoredKeyring
next = record {
  active_kid = "k2";
  pending_kid = none;
  pending_since = none;
  keys = pending ∷ record old { private_jwk = none; retired_at = some 220 } ∷ [];
}

activates : next_keyring 220 generated (some current) ≡ replaced next
unfolding next_keyring rotate_pending activate_found activate
activates = refl

next_keyring-IsSound_example :
    IsSound next
    × ((next.active_kid ≡ current.active_kid) ⊎ WasPublished current 220 next.active_kid)
next_keyring-IsSound_example =
    next_keyring-IsSound 220 generated current next
      (record { active = refl; stripped = refl; another = refl }) refl refl activates
