-- ===== src/Do/OneTime/Once.antt =====
-- How often and when a stored value is handed out.
-- About src/do/base.ts.
use keyforge.Prelude.{
  ℕ, ◌+◌, ◌*◌, ◌≤◌, ◌<◌, ◌≡◌, refl, ◌⊎◌, inl, inr, Bool, true, false, none, some, List, [], ◌∷◌,
  leb, if◌then◌else◌, any, arith, Bool-cases, Option-cases, All, leb→le,
}
use keyforge.Do.OneTime.{
  Storage, Call, consumes, peeks, alarms, time, store, consume, alarm, handed_out, is_not_false,
}

module _ {ℓ} {T : Type ℓ} where
  spent :
      (calls : List Call) (s : Storage T) → is_not_false s.consumed ≡ true → handed_out calls s ≡ []
  unfolding handed_out consume alarm
  spent [] s h = refl
  spent (consumes now ∷ calls) s h = ground (arith, spent calls s h)
  spent (peeks now ∷ calls) s h = spent calls s h
  spent (alarms now ∷ calls) s h = spent calls _ refl

  -- What one call to `consume` leaves behind: the same storage, or one that hands out nothing more.
  consume_after :
      (now : ℕ) (s : Storage T)
      → ((consume now s).0 ≡ none) × ((consume now s).1 ≡ s)
        ⊎ (is_not_false (consume now s).1.consumed ≡ true)
  unfolding consume
  consume_after now s = ground (arith, Option-cases s.value)

  consume_found : (now : ℕ) (s : Storage T) {v : T} → (consume now s).0 ≡ some v → s.value ≡ some v
  unfolding consume
  consume_found now s h = ground (arith, Option-cases s.value)

  once :
      (calls : List Call) (s : Storage T) {v : T}
      → s.value ≡ some v
      → (handed_out calls s ≡ []) ⊎ (handed_out calls s ≡ v ∷ [])
  unfolding handed_out alarm
  once [] s h = inl refl
  once (consumes now ∷ calls) s {v} h = elim (Option-cases (consume now s).0) [
    | inl e ↦ elim (consume_after now s) [
      | inl (_, same) ↦ rw (e, same) (once calls s h)
      | inr dead ↦ inl (rw e (spent calls (consume now s).1 dead))
    ]
    | inr (w, e) ↦ elim (consume_after now s) [
      | inl (missing, _) ↦ cc
      | inr dead ↦ inr (ground (arith, spent calls (consume now s).1 dead, consume_found now s e))
    ]
  ]
  once (peeks now ∷ calls) s h = once calls s h
  once (alarms now ∷ calls) s h = inl (spent calls _ refl)

  -- Whatever calls follow a `store`, in whatever order and whatever the clock reads, they hand out
  -- nothing or the stored value once.
  pub handed_out-store_once :
      (value : T) (ttl_seconds now : ℕ) (s : Storage T) (calls : List Call)
      → (handed_out calls (store value ttl_seconds now s) ≡ [])
        ⊎ (handed_out calls (store value ttl_seconds now s) ≡ value ∷ [])
  unfolding store
  handed_out-store_once value ttl_seconds now s calls = once calls _ refl

-- A history in the order of the clock, from time `t` on.
abbrev pub IsOrdered : ℕ → List Call → Type 0
IsOrdered t [] = Unit
IsOrdered t (c ∷ calls) = (t ≤ time c) × IsOrdered (time c) calls

-- The runtime runs no alarm before the time that it was set for.
abbrev pub AlarmsFrom : ℕ → Call → Type 0
AlarmsFrom t (alarms now) = t ≤ now
AlarmsFrom t (consumes now) = Unit
AlarmsFrom t (peeks now) = Unit

abbrev pub asks_by : ℕ → Call → Bool
asks_by expires_at (consumes now) = leb now expires_at
asks_by expires_at (peeks now) = false
asks_by expires_at (alarms now) = false

nobody_asks :
    (expires_at t : ℕ) (calls : List Call)
    → expires_at < t
    → IsOrdered t calls
    → any (asks_by expires_at) calls ≡ false
nobody_asks e t [] h o = refl
nobody_asks e t (consumes now ∷ calls) h (p, o) =
    ground (arith, nobody_asks e now calls (omega arith) o)
nobody_asks e t (peeks now ∷ calls) h (p, o) = nobody_asks e now calls (omega arith) o
nobody_asks e t (alarms now ∷ calls) h (p, o) = nobody_asks e now calls (omega arith) o

module _ {ℓ} {T : Type ℓ} (value : T) (expires_at : ℕ) where
  abbrev IsLive : Storage T → Type ℓ
  IsLive s = (s.consumed ≡ some false) × (s.expires_at ≡ some expires_at) × (s.value ≡ some value)

  consume_in_time :
      (now : ℕ) (s : Storage T)
      → IsLive s
      → now ≤ expires_at
      → ((consume now s).0 ≡ some value) × (is_not_false (consume now s).1.consumed ≡ true)
  unfolding consume
  consume_in_time now s live h = ground arith

  consume_late :
      (now : ℕ) (s : Storage T)
      → IsLive s
      → expires_at < now
      → ((consume now s).0 ≡ none) × (is_not_false (consume now s).1.consumed ≡ true)
  unfolding consume
  consume_late now s live h = ground arith

  live :
      (t : ℕ) (calls : List Call) (s : Storage T)
      → IsLive s
      → IsOrdered t calls
      → All (AlarmsFrom (expires_at + 60000)) calls
      → handed_out calls s ≡ (if any (asks_by expires_at) calls then value ∷ [] else [])
  unfolding handed_out alarm
  live t [] s l o a = refl
  live t (consumes now ∷ calls) s l (_, o) (_, a) = elim (Bool-cases (leb now expires_at)) [
    | inl early ↦
        (let (found, dead) = consume_in_time now s l (leb→le now expires_at early) in
          rw (early, found, spent calls (consume now s).1 dead))
    | inr late ↦
        (let h : expires_at < now = ground arith in
          let (missing, dead) = consume_late now s l h in
          rw (
            late,
            missing,
            spent calls (consume now s).1 dead,
            nobody_asks expires_at now calls h o,
          ))
  ]
  live t (peeks now ∷ calls) s l (_, o) (_, a) = live now calls s l o a
  live t (alarms now ∷ calls) s l (_, o) (p, a) =
      rw (spent calls (alarm s) refl, nobody_asks expires_at now calls (omega arith) o)

-- With a clock that does not run back, and no alarm before the time that `store` set it for, the
-- calls after a `store` hand out the stored value exactly if one of them is a `consume` no later
-- than the expiry; else they hand out nothing.
pub handed_out-store_exact {ℓ} :
    {T : Type ℓ} (value : T) (ttl_seconds now : ℕ) (s : Storage T) (calls : List Call)
    → IsOrdered now calls
    → All (AlarmsFrom (now + ttl_seconds * 1000 + 60000)) calls
    → handed_out calls (store value ttl_seconds now s)
      ≡ (if any (asks_by (now + ttl_seconds * 1000)) calls then value ∷ [] else [])
unfolding store
handed_out-store_exact value ttl_seconds now s calls o a =
    live value (now + ttl_seconds * 1000) now calls _ (refl, refl, refl) o a
