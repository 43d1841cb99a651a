-- ===== src/RefreshTokens/Issue/Revocation.antt =====
-- Issuing tokens, and revocations.
-- About src/tokens/refresh-token.ts.
use keyforge.Prelude.{
  ℕ, ◌≤◌, String, ◌≡◌, ap, inl, inr, false, List, ◌∷◌, arith, eq_iff, Bool-cases, any, includes,
  ◌==◌, string_eq, option_eq, nat_eq, number,
}
use keyforge.Security.Crypto.{Platform}
use keyforge.RefreshTokens.{Row, Store}
use keyforge.RefreshTokens.Revocation.{IsRevoked, set_revoked-IsRevoked}
use keyforge.RefreshTokens.Issue.{
  IssueInput, Draw, new_row, prune, is_issued, excess_ids, commit, batch_fails, issue_refresh_token,
}
use keyforge.RefreshTokens.Issue.Cap.{repeats, none_of_any, clear_of}

prune-IsRevoked :
    (f id u c : String) (now : ℕ) (rows : List Row)
    → IsRevoked f rows
    → IsRevoked f (prune id u c now rows)
unfolding prune
prune-IsRevoked f id u c now rows h = elim (Bool-cases (is_issued id rows)) [
  | inl issued ↦
      rw issued
        (set_revoked-IsRevoked f (λ row. includes (excess_ids id u c now rows) row.id) now rows h)
  | inr other ↦ rw other h
]

-- A row of another family is added.
new_row-IsRevoked :
    (f : String) (p : Platform) (draw : Draw) (input : IssueInput) (rows : List Row)
    → (draw.family_id == f) ≡ false
    → IsRevoked f rows
    → IsRevoked f (new_row p draw input ∷ rows)
new_row-IsRevoked f p draw input rows other h = rw other h

-- The identifier of a new family is none of the table's.
other_family :
    (f : String) (p : Platform) (draw : Draw) (rows : List Row)
    → 1 ≤ number (λ row. row.id == f) rows
    → any (repeats p draw) rows ≡ false
    → (draw.family_id == f) ≡ false
other_family f p draw rows there clear = elim (Bool-cases (draw.family_id == f)) [
  | inr other ↦ other
  | inl own ↦
      let same = (eq_iff draw.family_id f).0 own in
      let none_there =
        none_of_any (λ row. row.id == draw.family_id) (repeats p draw) rows
          (λ row h. ground (arith, h)) clear in
      absurd (omega (arith, there, none_there, ap (λ id. number (λ row. row.id == id) rows) same))
]

pub issue-IsRevoked :
    (f : String) (p : Platform) (draw : Draw) (input : IssueInput) (s : Store)
    → IsRevoked f s.rows
    → IsRevoked f (issue_refresh_token p draw input s).1.rows
unfolding issue_refresh_token commit
issue-IsRevoked f p draw input s h = elim (Bool-cases (batch_fails p draw s.rows)) [
  | inl fails ↦ rw fails h
  | inr clear ↦ elim (Bool-cases draw.session_active) [
    | inr inactive ↦
        rw (clear, inactive)
          (prune-IsRevoked f draw.family_id input.user_id input.client_id draw.now s.rows h)
    | inl active ↦
        rw (clear, active)
          (prune-IsRevoked f draw.family_id input.user_id input.client_id draw.now
            (new_row p draw input ∷ s.rows)
            (new_row-IsRevoked f p draw input s.rows
              (other_family f p draw s.rows h.0 (clear_of p draw s.rows clear active)) h))
  ]
]
