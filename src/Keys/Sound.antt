-- ===== src/Keys/Sound.antt =====
-- What a rotation of the signing keys keeps true.
-- About src/tokens/key-rotation.ts.
use mathlib.Core.Path.{subst}
use keyforge.Prelude.{
  ℕ, ◌+◌, ◌≤◌, String, ◌≡◌, refl, sym, ap, ◌∙◌, ◌⊎◌, inl, inr, Bool, true, false, not, ◌||◌, Option,
  none, some, List, [], ◌∷◌, map, arith, eq_iff, ltb, Bool-cases, Option-cases, any, all, filter,
  ◌==◌, string_eq, option_eq, nat_eq, find,
}
use keyforge.Keys.{
  StoredSigningKey, StoredKeyring, published_keys, is_unretired, has_material, signs, strip,
  is_retained, jwks_propagation_seconds, stage, activated_key, activate, replaced, activate_found,
  rotate_pending, next_keyring,
}

-- A retired key has no private part.
abbrev pub is_stripped : StoredSigningKey → Bool
is_stripped key = is_unretired key.retired_at || not (has_material key.private_jwk)

-- The active key can sign, the retired ones are public, and the pending key is another one.
pub record IsSound (keyring : StoredKeyring) : Type 0 where
  pub active : any (signs keyring.active_kid) keyring.keys ≡ true
  pub stripped : all is_stripped keyring.keys ≡ true
  pub another : (keyring.pending_kid == some keyring.active_kid) ≡ false

strip-stripped : (key : StoredSigningKey) → is_stripped (strip key) ≡ true
strip-stripped key = ground (arith, Option-cases key.retired_at)

-- A key that passes a test leads to one that is kept and passes another.
any_kept :
    (p p' q : StoredSigningKey → Bool) (change : StoredSigningKey → StoredSigningKey)
    (keys : List StoredSigningKey)
    → ((key : StoredSigningKey) → p key ≡ true → (q (change key) ≡ true) × (p' (change key) ≡ true))
    → any p keys ≡ true
    → any p' (filter q (map change keys)) ≡ true
any_kept p p' q change [] h found = found
any_kept p p' q change (key ∷ keys) h found = elim (Bool-cases (p key)) [
  | inl here ↦ rw ((h key here).0, (h key here).1) refl
  | inr there ↦
      let rest = any_kept p p' q change keys h (rw there at found) in
      elim (Bool-cases (q (change key))) [
        | inl kept ↦ rw kept (ground (arith, rest))
        | inr dropped ↦ rw dropped rest
      ]
]

any-filter :
    (p p' q : StoredSigningKey → Bool) (keys : List StoredSigningKey)
    → ((key : StoredSigningKey) → p key ≡ true → (q key ≡ true) × (p' key ≡ true))
    → any p keys ≡ true
    → any p' (filter q keys) ≡ true
any-filter p p' q [] h found = found
any-filter p p' q (key ∷ keys) h found = elim (Bool-cases (p key)) [
  | inl here ↦ rw ((h key here).0, (h key here).1) refl
  | inr there ↦
      let rest = any-filter p p' q keys h (rw there at found) in
      elim (Bool-cases (q key)) [
        | inl kept ↦ rw kept (ground (arith, rest))
        | inr dropped ↦ rw dropped rest
      ]
]

find-some :
    (p : StoredSigningKey → Bool) (keys : List StoredSigningKey) (key : StoredSigningKey)
    → find p keys ≡ some key
    → (p key ≡ true) × (any p keys ≡ true)
find-some p [] key h = cc
find-some p (first ∷ keys) key h = elim (Bool-cases (p first)) [
  | inl here ↦
      let same : first ≡ key = cc (rw here at h) in
      (subst (λ k. p k ≡ true) same here, rw here refl)
  | inr there ↦ let (passes, rest) = find-some p keys key (rw there at h) in (passes, rw there rest)
]

all_stripped :
    (rotated_at : ℕ) (change : StoredSigningKey → StoredSigningKey) (keys : List StoredSigningKey)
    → ((key : StoredSigningKey) → is_stripped (change key) ≡ true)
    → all is_stripped (filter (is_retained rotated_at) (map change keys)) ≡ true
all_stripped rotated_at change [] h = refl
all_stripped rotated_at change (key ∷ keys) h =
    elim (Bool-cases (is_retained rotated_at (change key))) [
      | inl kept ↦ rw (kept, h key) (all_stripped rotated_at change keys h)
      | inr dropped ↦ rw dropped (all_stripped rotated_at change keys h)
    ]

strip-signs :
    (rotated_at : ℕ) (kid : String) (key : StoredSigningKey)
    → signs kid key ≡ true
    → (is_retained rotated_at (strip key) ≡ true) × (signs kid (strip key) ≡ true)
strip-signs rotated_at kid key h = ground (arith, h, Option-cases key.retired_at)

activated-stripped :
    (rotated_at : ℕ) (active pending : String) (key : StoredSigningKey)
    → is_stripped (activated_key rotated_at active pending key) ≡ true
activated-stripped rotated_at active pending key = ground (arith, strip-stripped key)

other_kid :
    (kid active pending : String)
    → (kid == pending) ≡ true
    → (pending == active) ≡ false
    → (kid == active) ≡ false
other_kid kid active pending same other = rw ((eq_iff kid pending).0 same) other

activated-signs :
    (rotated_at : ℕ) (active pending : String) (key : StoredSigningKey)
    → (pending == active) ≡ false
    → signs pending key ≡ true
    → (is_retained rotated_at (activated_key rotated_at active pending key) ≡ true)
      × (signs pending (activated_key rotated_at active pending key) ≡ true)
activated-signs rotated_at active pending key other h =
    let own : (key.kid == pending) ≡ true = ground (arith, h) in
    let not_active = other_kid key.kid active pending own other in
    rw (not_active, own) (refl, ground (arith, own, h))

stage-IsSound :
    (rotated_at : ℕ) (generated : StoredSigningKey) (current : StoredKeyring)
    → IsSound current
    → signs generated.kid generated ≡ true
    → (generated.kid == current.active_kid) ≡ false
    → IsSound (stage rotated_at generated current)
unfolding stage
stage-IsSound rotated_at generated current sound fresh other =
    let kept =
      any_kept (signs current.active_kid) (signs current.active_kid) (is_retained rotated_at) strip
        current.keys (strip-signs rotated_at current.active_kid) sound.active in
    record {
      active = ground (arith, kept);
      stripped = ground (arith, fresh, all_stripped rotated_at strip current.keys strip-stripped);
      another = other;
    }

activate-IsSound :
    (rotated_at : ℕ) (pending : String) (current : StoredKeyring)
    → any (signs pending) current.keys ≡ true
    → (pending == current.active_kid) ≡ false
    → IsSound (activate rotated_at pending current)
unfolding activate
activate-IsSound rotated_at pending current found other = record {
  active =
      any_kept (signs pending) (signs pending) (is_retained rotated_at)
        (activated_key rotated_at current.active_kid pending) current.keys
        (λ key h. activated-signs rotated_at current.active_kid pending key other h) found;
  stripped =
      all_stripped rotated_at (activated_key rotated_at current.active_kid pending) current.keys
        (activated-stripped rotated_at current.active_kid pending);
  another = refl;
}

-- The next active key was pending, and has been published, for long enough.
pub record WasPublished (current : StoredKeyring) (rotated_at : ℕ) (kid : String) : Type 0 where
  pub since : ℕ
  pub pending : current.pending_kid ≡ some kid
  pub published_since : current.pending_since ≡ some since
  pub long_enough : since + jwks_propagation_seconds ≤ rotated_at
  pub published : any (signs kid) (published_keys current rotated_at) ≡ true

middle : (a b c : Bool) → b ≡ true → (a || b || c) ≡ true
middle a b c h = ground (arith, h)

own_kid : (kid : String) (key : StoredSigningKey) → signs kid key ≡ true → (key.kid == kid) ≡ true
own_kid kid key h = ground (arith, h)

pending-published :
    (current : StoredKeyring) (rotated_at : ℕ) (kid : String)
    → current.pending_kid ≡ some kid
    → any (signs kid) current.keys ≡ true
    → any (signs kid) (published_keys current rotated_at) ≡ true
unfolding published_keys
pending-published current rotated_at kid pending found =
    any-filter (signs kid) (signs kid) _ current.keys
      (λ key h. (middle _ _ _ (ap (λ o. some key.kid == o) pending ∙ own_kid kid key h), h)) found

replaced_injective : (a b : StoredKeyring) → replaced a ≡ replaced b → a ≡ b
replaced_injective a b h = cc

pending_cases :
    (rotated_at : ℕ) (generated : StoredSigningKey) (o : Option String)
    (current next : StoredKeyring)
    → current.pending_kid ≡ o
    → IsSound current
    → signs generated.kid generated ≡ true
    → (generated.kid == current.active_kid) ≡ false
    → rotate_pending rotated_at generated o current ≡ replaced next
    → IsSound next
      × ((next.active_kid ≡ current.active_kid) ⊎ WasPublished current rotated_at next.active_kid)
unfolding rotate_pending activate_found stage activate
pending_cases rotated_at generated none current next e sound fresh other h =
    let same = replaced_injective _ _ h in
    (
      subst IsSound same (stage-IsSound rotated_at generated current sound fresh other),
      inl (sym (ap (λ k. k.active_kid) same)),
    )
pending_cases rotated_at generated (some pending) current next e sound fresh other h =
    elim (Option-cases current.pending_since) [
      | inl never ↦ cc (rw never at h)
      | inr (since, published) ↦
          elim (Bool-cases (ltb rotated_at (since + jwks_propagation_seconds))) [
            | inl early ↦ cc (rw (published, early) at h)
            | inr late ↦ elim (Option-cases (find (signs pending) current.keys)) [
              | inl missing ↦ cc (rw (published, late, missing) at h)
              | inr (key, found) ↦
                  let (passes, found_any) = find-some (signs pending) current.keys key found in
                  let kid : key.kid ≡ pending =
                    (eq_iff key.kid pending).0 (own_kid pending key passes) in
                  let same : activate rotated_at key.kid current ≡ next =
                    replaced_injective _ _ (rw (published, late, found) at h) in
                  let found_key : any (signs key.kid) current.keys ≡ true = rw kid found_any in
                  let distinct : (key.kid == current.active_kid) ≡ false =
                    rw kid (ap (λ o. o == some current.active_kid) (sym e) ∙ sound.another) in
                  (
                    subst IsSound same
                        (activate-IsSound rotated_at key.kid current found_key distinct),
                    inr (
                        subst (λ k. WasPublished current rotated_at k.active_kid) same
                          (record {
                            since = since;
                            pending = e ∙ ap some (sym kid);
                            published_since = published;
                            long_enough = ground (arith, late);
                            published =
                                pending-published current rotated_at key.kid (e ∙ ap some (sym kid))
                                  found_key;
                          })),
                  )
            ]
          ]
    ]

-- A rotation of a sound keyring is sound again: its active key can sign, its retired keys have no private
-- part, and its pending key is another one; and the active key stays, or it is the key that was pending,
-- and published, for as long as caches keep the published keys. The generated key is assumed to be
-- able to sign, and to be another one than the active key.
pub next_keyring-IsSound :
    (rotated_at : ℕ) (generated : StoredSigningKey) (current next : StoredKeyring)
    → IsSound current
    → signs generated.kid generated ≡ true
    → (generated.kid == current.active_kid) ≡ false
    → next_keyring rotated_at generated (some current) ≡ replaced next
    → IsSound next
      × ((next.active_kid ≡ current.active_kid) ⊎ WasPublished current rotated_at next.active_kid)
unfolding next_keyring
next_keyring-IsSound rotated_at generated current next sound fresh other h =
    pending_cases rotated_at generated current.pending_kid current next refl sound fresh other h
