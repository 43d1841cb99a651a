-- ===== src/Do/OneTime.antt =====
-- src/do/base.ts: the store of one single-use value, addressed by the hash of its token, with the
-- classes OneTimeTokenDO and WebAuthnChallengeDO, which add nothing. Times are milliseconds.
pub mod Once
pub mod Register
pub mod Tests
use keyforge.Prelude.{
  ℕ, ◌+◌, ◌*◌, Bool, true, false, Option, none, some, List, [], ◌∷◌, ltb, if◌then◌else◌,
}

pub record Storage {ℓ} (T : Type ℓ) : Type ℓ where
  pub consumed : Option Bool
  pub expires_at : Option ℕ
  pub value : Option T
  pub alarm_at : Option ℕ

-- `consumed !== false`, where a missing key is `undefined`.
abbrev pub is_not_false : Option Bool → Bool
is_not_false (some false) = false
is_not_false _ = true

-- `expiresAt === undefined || Date.now() > expiresAt`.
abbrev pub is_over : Option ℕ → ℕ → Bool
is_over none now = true
is_over (some expires_at) now = ltb expires_at now

module _ {ℓ} {T : Type ℓ} where
  pub empty : Storage T
  empty = record { consumed = none; expires_at = none; value = none; alarm_at = none }

  unfoldable pub store : T → (ttl_seconds now : ℕ) → Storage T → Storage T
  store value ttl_seconds now s = record {
    consumed = some false;
    expires_at = some (now + ttl_seconds * 1000);
    value = some value;
    alarm_at = some (now + ttl_seconds * 1000 + 60000);
  }

  -- The last two steps of `consume`, once the value is neither consumed nor expired.
  take : Option T → Storage T → Option T × Storage T
  take none s = (none, s)
  take (some value) s = (some value, record s { consumed = some true })

  -- The result `{ found: true, value }` is `some value`.
  pub consume : ℕ → Storage T → Option T × Storage T
  unfolding take empty
  consume now s =
      if is_not_false s.consumed
      then (none, s)
      else if is_over s.expires_at now
      then (none, empty)
      else take s.value s

  pub peek : ℕ → Storage T → Option T
  peek now s =
      if is_not_false s.consumed then none else if is_over s.expires_at now then none else s.value

  pub alarm : Storage T → Storage T
  unfolding empty
  alarm s = empty

-- The calls that an object receives after a `store`, each with the clock's reading.
pub data Call : Type 0 where
  consumes peeks alarms : ℕ → Call

abbrev pub time : Call → ℕ
time (consumes now) = now
time (peeks now) = now
time (alarms now) = now

module _ {ℓ} {T : Type ℓ} where
  abbrev pub prepend : Option T → List T → List T
  prepend none vs = vs
  prepend (some v) vs = v ∷ vs

  -- The values that the `consume` calls of a history hand out, in order.
  pub handed_out : List Call → Storage T → List T
  handed_out [] s = []
  handed_out (consumes now ∷ calls) s =
      prepend (consume now s).0 (handed_out calls (consume now s).1)
  handed_out (peeks now ∷ calls) s = handed_out calls s
  handed_out (alarms now ∷ calls) s = handed_out calls (alarm s)
