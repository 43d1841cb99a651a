-- ===== src/Prelude/Eq.antt =====
-- Equality tests by instances: numbers, texts, and optional values.
use Prim.Native.Nat.{ℕ}
use Prim.Native.String.{String}
use mathlib.Core.Path.{◌≡◌, refl, sym}
use mathlib.Core.Logic.{◌↔◌, inl, inr}
use mathlib.Core.Bool.{Bool, true, false, not, ◌||◌}
use mathlib.Core.Option.{Option, none, some}
use mathlib.Core.List.{List, [], ◌∷◌}
use native.Mathlib.Omega.{arith}
use text.Mathlib.Text.{◌==◌ as str_eq}
use text.Mathlib.TextEquality.{eq_iff}
use keyforge.Prelude.Tests.{eqb, eqb_iff, Bool-cases}
use keyforge.Prelude.Lists.{filter, IsMember, filter-IsMember, IsMember-filter}

pub record Eq {ℓ} (A : Type ℓ) : Type ℓ where
  -- `===`.
  pub same : (left right : A) → Bool
  pub same_iff : (left right : A) → (same left right ≡ true) ↔ (left ≡ right)

abbrev pub ◌==◌ {ℓ} : {A : Type ℓ} ⦃by_value : Eq A⦄ → (left right : A) → Bool
◌==◌ ⦃by_value⦄ left right = by_value.same left right

abbrev pub ◌!=◌ {ℓ} : {A : Type ℓ} ⦃by_value : Eq A⦄ → (left right : A) → Bool
left != right = not (left == right)

infix 50 ◌==◌ ◌!=◌
instance abbrev pub nat_eq : Eq ℕ
nat_eq = record { same = eqb; same_iff = eqb_iff }

instance abbrev pub string_eq : Eq String
string_eq = record { same = str_eq; same_iff = eq_iff }

-- `===` on values that may be null.
module _ {ℓ} {A : Type ℓ} ⦃e : Eq A⦄ where
  abbrev pub option_beq : Option A → Option A → Bool
  option_beq none none = true
  option_beq (some a) (some b) = a == b
  option_beq _ _ = false

  pub option_beq_iff : (a b : Option A) → (option_beq a b ≡ true) ↔ (a ≡ b)
  option_beq_iff none none = ground arith
  option_beq_iff none (some b) = ground arith
  option_beq_iff (some a) none = ground arith
  option_beq_iff (some a) (some b) = ground (arith, e.same_iff a b)

  instance abbrev pub option_eq : Eq (Option A)
  option_eq = record { same = option_beq; same_iff = option_beq_iff }

  -- `includes` of an array.
  abbrev pub includes : List A → A → Bool
  includes [] a = false
  includes (x ∷ xs) a = (x == a) || includes xs a

  pub beq_refl : (a : A) → (a == a) ≡ true
  beq_refl a = (e.same_iff a a).1 refl

  -- `[...new Set(values)]`: the first of each value, in order.
  abbrev pub unique : List A → List A
  unique [] = []
  unique (x ∷ xs) = x ∷ filter (λ y. y != x) (unique xs)

module _ {A : Type 0} ⦃e : Eq A⦄ where
  pub includes_iff : (xs : List A) (a : A) → (includes xs a ≡ true) ↔ IsMember a xs
  includes_iff [] a = (λ h. cc, λ m. absurd m)
  includes_iff (x ∷ xs) a = ground (arith, e.same_iff x a, includes_iff xs a)

  pub unique-IsMember : (xs : List A) (a : A) → IsMember a xs → IsMember a (unique xs)
  unique-IsMember [] a m = absurd m
  unique-IsMember (x ∷ xs) a (inl h) = inl h
  unique-IsMember (x ∷ xs) a (inr m) = elim (Bool-cases (a == x)) [
    | inl same ↦ inl (sym ((e.same_iff a x).0 same))
    | inr other ↦ inr (IsMember-filter _ (unique xs) (unique-IsMember xs a m) (rw other))
  ]

  pub IsMember-unique : (xs : List A) (a : A) → IsMember a (unique xs) → IsMember a xs
  IsMember-unique [] a m = absurd m
  IsMember-unique (x ∷ xs) a (inl h) = inl h
  IsMember-unique (x ∷ xs) a (inr m) =
      inr (IsMember-unique xs a (filter-IsMember _ (unique xs) m).0)
