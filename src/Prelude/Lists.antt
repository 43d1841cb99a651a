-- ===== src/Prelude/Lists.antt =====
-- Lists under Boolean tests, and measured by native numbers.
use Prim.Native.Nat.{ℕ, suc, ◌+◌, ◌≤◌}
use mathlib.Core.Path.{◌≡◌, refl, sym, subst}
use mathlib.Core.Bool.{false≢true, Bool, true, false, ◌&&◌, ◌||◌}
use mathlib.Core.Logic.{◌⊎◌, inl, inr}
use keyforge.Prelude.Tests.{Bool-cases}
use mathlib.Core.List.{List, [], ◌∷◌, ◌++◌}
use native.Mathlib.Omega.{arith}

module _ {ℓ} {A : Type ℓ} where
  abbrev pub length : List A → ℕ
  length [] = 0
  length (x ∷ xs) = suc (length xs)

  -- `some`, `every` and `filter` of an array.
  abbrev pub any : (A → Bool) → List A → Bool
  any p [] = false
  any p (x ∷ xs) = p x || any p xs

  abbrev pub all : (A → Bool) → List A → Bool
  all p [] = true
  all p (x ∷ xs) = p x && all p xs

  abbrev pub cons_if : Bool → A → List A → List A
  cons_if true x xs = x ∷ xs
  cons_if false x xs = xs

  abbrev pub filter : (A → Bool) → List A → List A
  filter p [] = []
  filter p (x ∷ xs) = cons_if (p x) x (filter p xs)

  -- A predicate on each item, by recursion.
  abbrev pub All {κ} : (A → Type κ) → List A → Type κ
  All P [] = Unit
  All P (x ∷ xs) = P x × All P xs

  pub length-append : (xs ys : List A) → length (xs ++ ys) ≡ length xs + length ys
  length-append [] ys = omega arith
  length-append (x ∷ xs) ys = omega (arith, length-append xs ys)

  pub length-filter-le : (p : A → Bool) (xs : List A) → length (filter p xs) ≤ length xs
  length-filter-le p [] = omega arith
  length-filter-le p (x ∷ xs) = ground (arith, length-filter-le p xs)

-- Membership by recursion, which the tactics take apart.
module _ {A : Type 0} where
  abbrev pub IsMember : A → List A → Type 0
  IsMember a [] = ⊥
  IsMember a (x ∷ xs) = (x ≡ a) ⊎ IsMember a xs

  pub filter-IsMember :
      (p : A → Bool) (xs : List A) {a : A} → IsMember a (filter p xs) → IsMember a xs × (p a ≡ true)
  filter-IsMember p [] m = absurd m
  filter-IsMember p (x ∷ xs) {a} m = elim (Bool-cases (p x)) [
    | inl h ↦ elim (rw h at m) [
      | inl e ↦ (inl e, subst (λ y. p y ≡ true) e h)
      | inr l ↦ (inr (filter-IsMember p xs l).0, (filter-IsMember p xs l).1)
    ]
    | inr h ↦ (let l = filter-IsMember p xs (rw h at m) in (inr l.0, l.1))
  ]

  pub IsMember-filter :
      (p : A → Bool) (xs : List A) {a : A} → IsMember a xs → p a ≡ true → IsMember a (filter p xs)
  IsMember-filter p [] m h = absurd m
  IsMember-filter p (x ∷ xs) {a} (inl e) h = rw (subst (λ y. p y ≡ true) (sym e) h) (inl e)
  IsMember-filter p (x ∷ xs) {a} (inr m) h = elim (Bool-cases (p x)) [
    | inl k ↦ rw k (inr (IsMember-filter p xs m h))
    | inr k ↦ rw k (IsMember-filter p xs m h)
  ]

  pub any-true :
      (p : A → Bool) (xs : List A) → any p xs ≡ true → (a : A) × IsMember a xs × (p a ≡ true)
  any-true p [] h = absurd (false≢true h)
  any-true p (x ∷ xs) h = elim (Bool-cases (p x)) [
    | inl here ↦ (x, inl refl, here)
    | inr there ↦ (let (a, m, e) = any-true p xs (rw there at h) in (a, inr m, e))
  ]

  pub any_of_mem :
      (p : A → Bool) (xs : List A) (a : A) → IsMember a xs → p a ≡ true → any p xs ≡ true
  any_of_mem p [] a m h = absurd m
  any_of_mem p (x ∷ xs) a (inl e) h = rw (subst (λ y. p y ≡ true) (sym e) h)
  any_of_mem p (x ∷ xs) a (inr m) h = ground (arith, any_of_mem p xs a m h)
