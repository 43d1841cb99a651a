-- ===== src/Keys.antt =====
-- The signing keys of src/tokens/key-rotation.ts. The keys that a rotation generates, the keyring of the
-- store that came before the table, and the clock's reading are arguments; what a key is made of is a text.
pub mod Sound
pub mod Tests
use keyforge.Prelude.{
  ℕ, ◌+◌, ◌*◌, String, Bool, true, false, ◌&&◌, ◌||◌, Option, none, some, List, [], ◌∷◌, map, ltb,
  if◌then◌else◌, any, filter, find, ◌==◌, string_eq, option_eq, nat_eq,
}

abbrev pub retired_grace_seconds : ℕ
retired_grace_seconds = 91 * 24 * 60 * 60

abbrev pub jwks_propagation_seconds : ℕ
jwks_propagation_seconds = 2 * 60

pub record StoredSigningKey : Type 0 where
  pub kid : String
  pub private_jwk : Option String
  pub public_jwk : String
  pub created_at : ℕ
  pub retired_at : Option ℕ

pub record StoredKeyring : Type 0 where
  pub active_kid : String
  pub pending_kid : Option String
  pub pending_since : Option ℕ
  pub keys : List StoredSigningKey

abbrev pub is_unretired : Option ℕ → Bool
is_unretired none = true
is_unretired (some at) = false

abbrev pub has_material : Option String → Bool
has_material none = false
has_material (some jwk) = true

-- `now - retiredAt < RETIRED_GRACE_SECONDS`, where the clock may have run back.
abbrev pub is_recent : (now : ℕ) → Option ℕ → Bool
is_recent now none = false
is_recent now (some at) = ltb now (at + retired_grace_seconds)

pub published_keys : StoredKeyring → (now : ℕ) → List StoredSigningKey
published_keys keyring now =
    filter
      (λ key.
        key.kid == keyring.active_kid
        || some key.kid == keyring.pending_kid
        || is_recent now key.retired_at)
      keyring.keys

abbrev pub signs : (kid : String) → StoredSigningKey → Bool
signs kid key = key.kid == kid && is_unretired key.retired_at && has_material key.private_jwk

pub has_usable_active_key : StoredKeyring → Bool
has_usable_active_key keyring = any (signs keyring.active_kid) keyring.keys

-- A retired key keeps its public part only.
abbrev pub strip : StoredSigningKey → StoredSigningKey
strip key = if is_unretired key.retired_at then key else record key { private_jwk = none }

abbrev pub is_retained : (rotated_at : ℕ) → StoredSigningKey → Bool
is_retained rotated_at key = is_unretired key.retired_at || is_recent rotated_at key.retired_at

abbrev pub initial_keyring : StoredSigningKey → StoredKeyring
initial_keyring key = record {
  active_kid = key.kid;
  pending_kid = none;
  pending_since = none;
  keys = key ∷ [];
}

-- The next key is published while the current one signs.
stage : (rotated_at : ℕ) → (pending : StoredSigningKey) → StoredKeyring → StoredKeyring
stage rotated_at pending current = record {
  active_kid = current.active_kid;
  pending_kid = some pending.kid;
  pending_since = some rotated_at;
  keys = pending ∷ filter (is_retained rotated_at) (map strip current.keys);
}

abbrev pub activated_key :
    (rotated_at : ℕ) → (active_kid pending_kid : String) → StoredSigningKey → StoredSigningKey
activated_key rotated_at active_kid pending_kid key =
    if key.kid == active_kid
    then record key { private_jwk = none; retired_at = some rotated_at }
    else if key.kid == pending_kid
    then record key { retired_at = none }
    else strip key

activate : (rotated_at : ℕ) → (pending_kid : String) → StoredKeyring → StoredKeyring
activate rotated_at pending_kid current = record {
  active_kid = pending_kid;
  pending_kid = none;
  pending_since = none;
  keys =
      filter (is_retained rotated_at)
        (map (activated_key rotated_at current.active_kid pending_kid) current.keys);
}

pub data Rotation : Type 0 where
  failed : Rotation
  unchanged replaced : StoredKeyring → Rotation

-- The pending key is not activated before it was published for long enough.
abbrev pub is_too_early : (rotated_at : ℕ) → Option ℕ → Bool
is_too_early rotated_at none = true
is_too_early rotated_at (some since) = ltb rotated_at (since + jwks_propagation_seconds)

activate_found : (rotated_at : ℕ) → Option StoredSigningKey → StoredKeyring → Rotation
unfolding activate
activate_found rotated_at none current = failed
activate_found rotated_at (some pending) current =
    replaced (activate rotated_at pending.kid current)

rotate_pending :
    (rotated_at : ℕ) → (generated : StoredSigningKey) → Option String → StoredKeyring → Rotation
unfolding stage activate_found
rotate_pending rotated_at generated none current = replaced (stage rotated_at generated current)
rotate_pending rotated_at generated (some pending_kid) current =
    if is_too_early rotated_at current.pending_since
    then unchanged current
    else activate_found rotated_at (find (signs pending_kid) current.keys) current

pub next_keyring :
    (rotated_at : ℕ) → (generated : StoredSigningKey) → Option StoredKeyring → Rotation
unfolding rotate_pending
next_keyring rotated_at generated none = replaced (initial_keyring generated)
next_keyring rotated_at generated (some current) =
    rotate_pending rotated_at generated current.pending_kid current

-- The row of signing_key_state.
pub record Persisted : Type 0 where
  pub keyring : StoredKeyring
  pub version : ℕ

-- The row is inserted if none is expected, and else replaced at the version that was read.
pub persist_keyring :
    StoredKeyring → (expected_version : Option ℕ) → Option Persisted → Bool × Option Persisted
persist_keyring keyring none none = (true, some (record { keyring = keyring; version = 1 }))
persist_keyring keyring none (some row) = (false, some row)
persist_keyring keyring (some version) none = (false, none)
persist_keyring keyring (some version) (some row) =
    if row.version == version
    then (true, some (record { keyring = keyring; version = row.version + 1 }))
    else (false, some row)

abbrev finish :
    Rotation → (expected_version : Option ℕ) → Option Persisted → Rotation × Option Persisted
finish failed version stored = (failed, stored)
finish (unchanged keyring) version stored = (unchanged keyring, stored)
finish (replaced keyring) version stored =
    let (written, row) = persist_keyring keyring version stored in
    (if written then replaced keyring else failed, row)

-- `loadLegacyKeyring` passes over a keyring that cannot sign.
abbrev usable : Option StoredKeyring → Option StoredKeyring
usable none = none
usable (some keyring) = if has_usable_active_key keyring then some keyring else none

-- `loaded` is the row that was read, and `stored` the row when the result is written.
pub rotate_persisted_keyring :
    (rotated_at : ℕ)
    → (generated : StoredSigningKey) → (legacy : Option StoredKeyring)
    → (loaded stored : Option Persisted) → Rotation × Option Persisted
unfolding next_keyring persist_keyring has_usable_active_key
rotate_persisted_keyring rotated_at generated legacy none stored =
    finish (next_keyring rotated_at generated (usable legacy)) none stored
rotate_persisted_keyring rotated_at generated legacy (some row) stored =
    if has_usable_active_key row.keyring
    then finish (next_keyring rotated_at generated (some row.keyring)) (some row.version) stored
    else (failed, stored)
