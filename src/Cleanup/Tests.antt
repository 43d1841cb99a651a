-- ===== src/Cleanup/Tests.antt =====
-- A cleanup in a batch that is too small for all rows that are due.
-- About src/operations/maintenance.ts.
use keyforge.Prelude.{String, ◌≡◌, refl, Bool, false, [], ◌∷◌, ltb, sort, insert, string_eq}
use keyforge.Cleanup.{
  CleanupBranch, Candidate, group, least_terminal, least_from, branch_candidates, candidates,
  bounded, bounded_cleanup,
}

abbrev due : CleanupBranch Candidate
due = record { terminal = λ row. row.terminal_at; predicate = λ row. ltb row.terminal_at 50 }

abbrev ordered : String → String → Bool
ordered a b = false

-- The two oldest go, though each is due by both branches.
oldest_first :
    bounded_cleanup ordered
      (λ row. row.row_key)
      2
      (due ∷ due ∷ [])
      (record { row_key = "a"; terminal_at = 10 }
        ∷ record { row_key = "b"; terminal_at = 20 }
        ∷ record { row_key = "c"; terminal_at = 60 }
        ∷ record { row_key = "d"; terminal_at = 5 }
        ∷ [])
    ≡ record { row_key = "b"; terminal_at = 20 } ∷ record { row_key = "c"; terminal_at = 60 } ∷ []
unfolding bounded_cleanup bounded candidates branch_candidates group least_terminal least_from sort
    insert
oldest_first = refl
