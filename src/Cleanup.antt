-- ===== src/Cleanup.antt =====
-- boundedCleanupStatement of src/operations/maintenance.ts, on a table whose rows are of any type. How
-- the database orders the texts of the key is an argument.
pub mod Selected
pub mod Tests
use keyforge.Prelude.{
  ℕ, String, Bool, not, ◌&&◌, ◌||◌, List, [], ◌∷◌, ◌++◌, map, min, ltb, eqb, if◌then◌else◌, filter,
  includes, unique, take, sort, ◌==◌, string_eq,
}

-- A terminal column, which the predicate keeps from being NULL, and the predicate with its values bound.
pub record CleanupBranch (A : Type 0) : Type 0 where
  pub terminal : A → ℕ
  pub predicate : A → Bool

-- `SELECT key AS row_key, terminal AS terminal_at`.
pub record Candidate : Type 0 where
  pub row_key : String
  pub terminal_at : ℕ

-- `MIN(terminal_at)` of the candidates with one key, from the least so far.
least_from : (row_key : String) → (least : ℕ) → List Candidate → ℕ
least_from row_key least [] = least
least_from row_key least (c ∷ cs) =
    let skipped = least_from row_key least cs in
    let lowered = least_from row_key (min least c.terminal_at) cs in
    if c.row_key == row_key then lowered else skipped

-- There is one for each key that is grouped by.
least_terminal : (row_key : String) → List Candidate → ℕ
unfolding least_from
least_terminal row_key [] = 0
least_terminal row_key (c ∷ cs) =
    let rest = least_terminal row_key cs in
    if c.row_key == row_key then least_from row_key c.terminal_at cs else rest

-- `GROUP BY row_key`.
pub group : List Candidate → List Candidate
unfolding least_terminal
group candidates =
    map (λ row_key. record { row_key = row_key; terminal_at = least_terminal row_key candidates })
      (unique (map (λ c. c.row_key) candidates))

module _ (key_before : String → String → Bool) where
  -- `ORDER BY terminal_at ASC, row_key ASC`.
  abbrev pub before : Candidate → Candidate → Bool
  before a b =
      ltb a.terminal_at b.terminal_at
      || eqb a.terminal_at b.terminal_at && key_before a.row_key b.row_key

  module _ {A : Type 0} (key : A → String) (batch_size : ℕ) where
    abbrev pub candidate : CleanupBranch A → A → Candidate
    candidate branch row = record { row_key = key row; terminal_at = branch.terminal row }

    -- What one branch selects: at most one batch.
    pub branch_candidates : CleanupBranch A → List A → List Candidate
    branch_candidates branch rows =
        take batch_size (sort before (map (candidate branch) (filter branch.predicate rows)))

    -- `UNION ALL`.
    pub candidates : List (CleanupBranch A) → List A → List Candidate
    unfolding branch_candidates
    candidates [] rows = []
    candidates (branch ∷ branches) rows = branch_candidates branch rows ++ candidates branches rows

    pub bounded : List (CleanupBranch A) → List A → List String
    unfolding candidates group
    bounded branches rows =
        map (λ c. c.row_key) (take batch_size (sort before (group (candidates branches rows))))

    unfoldable pub bounded_cleanup : List (CleanupBranch A) → List A → List A
    unfolding bounded
    bounded_cleanup branches rows =
        filter (λ row. not (includes (bounded branches rows) (key row))) rows
