-- ===== src/Prelude/Tables.antt =====
-- A table as the list of its rows: statements on it, and rows in an order.
use Prim.Native.Nat.{ℕ, zero, suc, ◌+◌, ◌≤◌, min}
use mathlib.Core.Path.{◌≡◌, refl, ap}
use mathlib.Core.Logic.{◌⊎◌, inl, inr}
use mathlib.Core.Bool.{Bool, true, not, ◌&&◌, ◌||◌}
use mathlib.Core.Option.{Option, none, some}
use mathlib.Core.List.{List, [], ◌∷◌}
use native.Mathlib.Omega.{arith}
use keyforge.Prelude.Tests.{eqb, if◌then◌else◌, Bool-cases}
use keyforge.Prelude.Lists.{length, filter, IsMember}

module _ {ℓ} {A : Type ℓ} where
  -- `UPDATE … SET change WHERE test`.
  abbrev pub update : (test : A → Bool) → (change : A → A) → List A → List A
  update test change [] = []
  update test change (row ∷ rows) = (if test row then change row else row) ∷ update test change rows

  abbrev pub number : (test : A → Bool) → List A → ℕ
  number test rows = length (filter test rows)

  -- `meta.changes === 1` of that statement.
  abbrev pub changes_one : (test : A → Bool) → List A → Bool
  changes_one test rows = eqb (number test rows) 1

  -- The first row of a `SELECT`.
  abbrev pub find : (A → Bool) → List A → Option A
  find test [] = none
  find test (row ∷ rows) = if test row then some row else find test rows

  -- `LIMIT`.
  abbrev pub take : ℕ → List A → List A
  take zero rows = []
  take (suc n) [] = []
  take (suc n) (row ∷ rows) = row ∷ take n rows

  module _ (before : A → A → Bool) where
    unfoldable pub insert : A → List A → List A
    insert row [] = row ∷ []
    insert row (first ∷ rows) =
        let rest = insert row rows in if before row first then row ∷ first ∷ rows else first ∷ rest

    -- `ORDER BY`.
    unfoldable pub sort : List A → List A
    unfolding insert
    sort [] = []
    sort (row ∷ rows) = insert row (sort rows)

    number-insert :
        (p : A → Bool) (row : A) (rows : List A)
        → number p (insert row rows) ≡ number p (row ∷ rows)
    unfolding insert
    number-insert p row [] = refl
    number-insert p row (first ∷ rows) = ground (arith, number-insert p row rows)

    -- Sorting loses and repeats nothing.
    pub number-sort : (p : A → Bool) (rows : List A) → number p (sort rows) ≡ number p rows
    unfolding sort
    number-sort p [] = refl
    number-sort p (row ∷ rows) = ground (arith, number-insert p row (sort rows), number-sort p rows)

  pub number-true : (rows : List A) → number (λ row. true) rows ≡ length rows
  number-true [] = refl
  number-true (row ∷ rows) = ground (arith, number-true rows)

  -- The rows of a filter that pass another test pass both.
  pub number-filter :
      (p q : A → Bool) (rows : List A)
      → number p (filter q rows) ≡ number (λ row. q row && p row) rows
  number-filter p q [] = refl
  number-filter p q (row ∷ rows) = ground (arith, number-filter p q rows)

  -- Those that pass a test and a second one, and those that pass only the first.
  pub number_split :
      (p q : A → Bool) (rows : List A)
      → number (λ row. p row && q row) rows + number (λ row. p row && not (q row)) rows
        ≡ number p rows
  number_split p q [] = refl
  number_split p q (row ∷ rows) = ground (arith, number_split p q rows)

  pub length-take : (n : ℕ) (rows : List A) → length (take n rows) ≡ min n (length rows)
  length-take zero rows = omega arith
  length-take (suc n) [] = omega arith
  length-take (suc n) (row ∷ rows) = ground (arith, length-take n rows)

  -- A test that each of the first rows passes is passed by so many.
  pub number-take : (p : A → Bool) (n : ℕ) (rows : List A) → number p (take n rows) ≤ number p rows
  number-take p zero rows = omega arith
  number-take p (suc n) [] = omega arith
  number-take p (suc n) (row ∷ rows) = ground (arith, number-take p n rows)

  -- A weaker test is passed by as many rows at least.
  pub number_mono :
      (p q : A → Bool) (rows : List A)
      → ((row : A) → p row ≡ true → q row ≡ true)
      → number p rows ≤ number q rows
  number_mono p q [] h = omega arith
  number_mono p q (row ∷ rows) h = ground (arith, h row, number_mono p q rows h)

  -- A test that is passed by those of two others.
  pub number_cover :
      (p q r : A → Bool) (rows : List A)
      → ((row : A) → p row ≡ true → (q row || r row) ≡ true)
      → number p rows ≤ number q rows + number r rows
  number_cover p q r [] h = omega arith
  number_cover p q r (row ∷ rows) h = ground (arith, h row, number_cover p q r rows h)

  -- A statement whose change makes no row pass a test leaves no more that pass it.
  pub number-update_le :
      (p test : A → Bool) (change : A → A) (rows : List A)
      → ((row : A) → p (change row) ≡ true → p row ≡ true)
      → number p (update test change rows) ≤ number p rows
  number-update_le p test change [] h = omega arith
  number-update_le p test change (row ∷ rows) h =
      ground (arith, h row, number-update_le p test change rows h)

  pub number-update :
      (p test : A → Bool) (change : A → A) (rows : List A)
      → ((row : A) → p (change row) ≡ p row)
      → number p (update test change rows) ≡ number p rows
  number-update p test change [] h = refl
  number-update p test change (row ∷ rows) h =
      ground (arith, h row, number-update p test change rows h)

pub number_of_mem :
    {A : Type 0} (p : A → Bool) (row : A) (rows : List A)
    → IsMember row rows
    → p row ≡ true
    → 1 ≤ number p rows
number_of_mem p row [] m h = absurd m
number_of_mem p row (first ∷ rows) (inl e) h = ground (arith, ap p e, h)
number_of_mem p row (first ∷ rows) (inr m) h = ground (arith, number_of_mem p row rows m h)

module _ {A : Type 0} (before : A → A → Bool) where
  insert-IsMember :
      (row : A) (rows : List A) (a : A)
      → IsMember a (insert before row rows)
      → (row ≡ a) ⊎ IsMember a rows
  unfolding insert
  insert-IsMember row [] a (inl e) = inl e
  insert-IsMember row [] a (inr m) = inr m
  insert-IsMember row (first ∷ rows) a m = elim (Bool-cases (before row first)) [
    | inl here ↦ rw here at m
    | inr there ↦ elim (rw there at m) [
      | inl e ↦ inr (inl e)
      | inr l ↦ elim (insert-IsMember row rows a l) [ inl e ↦ inl e | inr k ↦ inr (inr k) ]
    ]
  ]

  pub sort-IsMember : (rows : List A) (a : A) → IsMember a (sort before rows) → IsMember a rows
  unfolding sort
  sort-IsMember [] a m = absurd m
  sort-IsMember (row ∷ rows) a m = elim (insert-IsMember row (sort before rows) a m) [
    | inl e ↦ inl e
    | inr l ↦ inr (sort-IsMember rows a l)
  ]
