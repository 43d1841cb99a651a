-- ===== src/Cleanup/Selected.antt =====
-- Which keys a bounded cleanup selects.
-- About src/operations/maintenance.ts.
use mathlib.Core.Path.{subst}
use keyforge.Prelude.{
  ℕ, zero, suc, String, ◌≡◌, refl, ap, ◌∙◌, ◌⊎◌, inl, inr, Bool, true, List, [], ◌∷◌, ◌++◌, map,
  filter, take, sort, sort-IsMember, IsMember, filter-IsMember, IsMember-unique, string_eq,
}
use keyforge.Cleanup.{
  CleanupBranch, Candidate, group, before, candidate, branch_candidates, candidates, bounded,
}

module _ {A : Type 0} where
  take-IsMember : (n : ℕ) (xs : List A) (a : A) → IsMember a (take n xs) → IsMember a xs
  take-IsMember zero xs a m = absurd m
  take-IsMember (suc n) [] a m = absurd m
  take-IsMember (suc n) (x ∷ xs) a (inl e) = inl e
  take-IsMember (suc n) (x ∷ xs) a (inr m) = inr (take-IsMember n xs a m)

  append-IsMember : (xs ys : List A) (a : A) → IsMember a (xs ++ ys) → IsMember a xs ⊎ IsMember a ys
  append-IsMember [] ys a m = inr m
  append-IsMember (x ∷ xs) ys a (inl e) = inl (inl e)
  append-IsMember (x ∷ xs) ys a (inr m) = elim (append-IsMember xs ys a m) [
    | inl l ↦ inl (inr l)
    | inr r ↦ inr r
  ]

map-IsMember :
    {A B : Type 0} (f : A → B) (xs : List A) (b : B)
    → IsMember b (map f xs)
    → (a : A) × IsMember a xs × (f a ≡ b)
map-IsMember f [] b m = absurd m
map-IsMember f (x ∷ xs) b (inl e) = (x, inl refl, e)
map-IsMember f (x ∷ xs) b (inr m) = let (a, l, e) = map-IsMember f xs b m in (a, inr l, e)

group-IsMember :
    (cs : List Candidate) (c : Candidate)
    → IsMember c (group cs)
    → (c' : Candidate) × IsMember c' cs × (c'.row_key ≡ c.row_key)
unfolding group
group-IsMember cs c m =
    let (k, l, e) = map-IsMember _ _ c m in
    let (c', n, f) =
      map-IsMember (λ x. x.row_key) cs k (IsMember-unique (map (λ x. x.row_key) cs) k l) in
    (c', n, f ∙ ap (λ x. x.row_key) e)

module _ (key_before : String → String → Bool) {A : Type 0} (key : A → String) (batch_size : ℕ)
    (rows : List A) where
  abbrev pub IsSelected : String → List (CleanupBranch A) → Type 0
  IsSelected k branches =
      (row : A) × IsMember row rows
      × (key row ≡ k)
      × ((branch : CleanupBranch A) × IsMember branch branches × (branch.predicate row ≡ true))

  branch-IsMember :
      (branch : CleanupBranch A) (c : Candidate)
      → IsMember c (branch_candidates key_before key batch_size branch rows)
      → (row : A) × IsMember row rows × (key row ≡ c.row_key) × (branch.predicate row ≡ true)
  unfolding branch_candidates
  branch-IsMember branch c m =
      let chosen =
        map (candidate key_before key batch_size branch) (filter branch.predicate rows) in
      let (row, l, e) =
        map-IsMember (candidate key_before key batch_size branch) (filter branch.predicate rows) c (
          sort-IsMember (before key_before) chosen c
            (take-IsMember batch_size (sort (before key_before) chosen) c m)) in
      let (n, holds) = filter-IsMember branch.predicate rows l in
      (row, n, ap (λ x. x.row_key) e, holds)

  candidates-IsMember :
      (branches : List (CleanupBranch A)) (c : Candidate)
      → IsMember c (candidates key_before key batch_size branches rows)
      → IsSelected c.row_key branches
  unfolding candidates
  candidates-IsMember [] c m = absurd m
  candidates-IsMember (branch ∷ branches) c m =
      elim (append-IsMember (branch_candidates key_before key batch_size branch rows) _ c m) [
        | inl l ↦
            (let (row, n, e, h) = branch-IsMember branch c l in (row, n, e, (branch, inl refl, h)))
        | inr l ↦
            (let (row, n, e, (b, k, h)) = candidates-IsMember branches c l in
              (row, n, e, (b, inr k, h)))
      ]

  -- A selected key is that of a row that one of the branches is about.
  pub bounded-IsMember :
      (branches : List (CleanupBranch A)) (k : String)
      → IsMember k (bounded key_before key batch_size branches rows)
      → IsSelected k branches
  unfolding bounded
  bounded-IsMember branches k m =
      let grouped = group (candidates key_before key batch_size branches rows) in
      let (c, m', e) = map-IsMember (λ x. x.row_key) _ k m in
      let (c', n, f) = group-IsMember (candidates key_before key batch_size branches rows) c (
        sort-IsMember (before key_before) grouped c
          (take-IsMember batch_size (sort (before key_before) grouped) c m')) in
      subst (λ x. IsSelected x branches) (f ∙ e) (candidates-IsMember branches c' n)
