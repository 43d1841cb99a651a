-- ===== src/Do/OneTime/Register.antt =====
-- The abstract view of the store: a register that holds a value until a deadline, or nothing.
-- About src/do/base.ts.
use keyforge.Prelude.{
  ℕ, ◌+◌, ◌*◌, ◌≡◌, refl, ap, ◌∙◌, inl, inr, Option, none, some, List, [], ◌∷◌, ltb, if◌then◌else◌,
  arith, Bool-cases, Option-cases,
}
use keyforge.Do.OneTime.{Storage, store, take, consume, peek, alarm, empty, is_not_false}

-- What an object is asked for: every method of it, and its alarm.
pub data Operation {ℓ} (T : Type ℓ) : Type ℓ where
  stores : T → (ttl_seconds now : ℕ) → Operation T
  consumes peeks : (now : ℕ) → Operation T
  alarms : Operation T

module _ {ℓ} {T : Type ℓ} where
  -- A value is handed out up to its deadline.
  abbrev held : ℕ → Option (T × ℕ) → Option T
  held now none = none
  held now (some (value, deadline)) = if ltb deadline now then none else some value

  -- The register: it is empty once it was asked for its value, whatever it answered.
  abbrev act : Operation T → Option (T × ℕ) → Option T × Option (T × ℕ)
  act (stores value ttl_seconds now) r = (none, some (value, now + ttl_seconds * 1000))
  act (consumes now) r = (held now r, none)
  act (peeks now) r = (held now r, r)
  act alarms r = (none, none)

  abbrev perform : Operation T → Storage T → Option T × Storage T
  perform (stores value ttl_seconds now) s = (none, store value ttl_seconds now s)
  perform (consumes now) s = consume now s
  perform (peeks now) s = (peek now s, s)
  perform alarms s = (none, alarm s)

  abbrev pub register_answers : List (Operation T) → Option (T × ℕ) → List (Option T)
  register_answers [] r = []
  register_answers (o ∷ operations) r = (act o r).0 ∷ register_answers operations (act o r).1

  abbrev pub answers : List (Operation T) → Storage T → List (Option T)
  answers [] s = []
  answers (o ∷ operations) s = (perform o s).0 ∷ answers operations (perform o s).1

  abbrev pair : Option ℕ → Option T → Option (T × ℕ)
  pair (some deadline) (some value) = some (value, deadline)
  pair _ _ = none

  -- The register that a storage stands for.
  abbrev pub register : Storage T → Option (T × ℕ)
  register s = if is_not_false s.consumed then none else pair s.expires_at s.value

  register-consume : (now : ℕ) (s : Storage T) → register (consume now s).1 ≡ none
  unfolding consume take empty
  register-consume now s = elim (Bool-cases (is_not_false s.consumed)) [
    | inl gone ↦ rw (gone, gone) refl
    | inr fresh ↦ elim (Option-cases s.value) [
      | inl no_value ↦ ground (arith, fresh, no_value, Option-cases s.expires_at)
      | inr (value, v) ↦ ground (arith, fresh, v)
    ]
  ]

  held-consume : (now : ℕ) (s : Storage T) → (consume now s).0 ≡ held now (register s)
  unfolding consume take
  held-consume now s = ground (arith, Option-cases s.expires_at, Option-cases s.value)

  held-peek : (now : ℕ) (s : Storage T) → peek now s ≡ held now (register s)
  unfolding peek
  held-peek now s = ground (arith, Option-cases s.expires_at, Option-cases s.value)

  perform-act :
      (o : Operation T) (s : Storage T)
      → ((perform o s).0 ≡ (act o (register s)).0)
        × (register (perform o s).1 ≡ (act o (register s)).1)
  unfolding store alarm empty
  perform-act (stores value ttl_seconds now) s = (refl, refl)
  perform-act (consumes now) s = (held-consume now s, register-consume now s)
  perform-act (peeks now) s = (held-peek now s, refl)
  perform-act alarms s = (refl, refl)

  -- Over every history of calls, the object answers as a register does that holds one value until its
  -- deadline and is emptied by the first call that asks for the value.
  pub answers-register :
      (operations : List (Operation T)) (s : Storage T)
      → answers operations s ≡ register_answers operations (register s)
  answers-register [] s = refl
  answers-register (o ∷ operations) s =
      let (same, next) = perform-act o s in
      ap (λ a. a ∷ answers operations (perform o s).1) same
      ∙ ap (λ rest. (act o (register s)).0 ∷ rest)
          (answers-register operations (perform o s).1 ∙ ap (register_answers operations) next)
