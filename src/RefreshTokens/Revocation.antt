-- ===== src/RefreshTokens/Revocation.antt =====
-- A family whose rows are revoked, and the statements that keep it so.
-- About src/db/queries/tokens.ts and src/tokens/refresh-token-revocation.ts.
use keyforge.Prelude.{
  ℕ, ◌≤◌, String, ◌≡◌, refl, ap, ◌⊎◌, inl, inr, Bool, true, not, ◌&&◌, some, List, [], ◌∷◌, arith,
  Bool-cases, ◌==◌, IsMember, string_eq, option_eq, nat_eq, beq_refl, update, number, number-update,
  number-update_le, number_of_mem, number_split, find,
}
use keyforge.RefreshTokens.{
  Row, Store, Revoked, is_unrevoked, set_revoked, selects, mark_refresh_token_revoked,
  revoke_matching_families, revoke_refresh_families, get_refresh_token_by_hash,
  get_refresh_token_by_family_id,
}

-- The family has a row, and none of its rows is unrevoked.
abbrev pub IsRevoked : String → List Row → Type 0
IsRevoked f rows =
    1 ≤ number (λ row. row.id == f) rows × number (λ row. row.id == f && is_unrevoked row) rows ≡ 0

-- A statement that keeps identifiers and takes no revocation back.
module _ (f : String) (test : Row → Bool) (change : Row → Row)
    (same : (row : Row) → (change row).id ≡ row.id)
    (kept : (row : Row) → is_unrevoked (change row) ≡ true → is_unrevoked row ≡ true) where
  pub update-IsRevoked :
      (rows : List Row) → IsRevoked f rows → IsRevoked f (update test change rows)
  update-IsRevoked rows (there, none_live) = (
    omega (
      arith,
      there,
      number-update (λ row. row.id == f) test change rows (λ row. ap (λ id. id == f) (same row)),
    ),
    omega (
      arith,
      none_live,
      number-update_le (λ row. row.id == f && is_unrevoked row) test change rows
          (λ row h. ground (arith, ap (λ id. id == f) (same row), kept row, h)),
    ),
  )

pub set_revoked-IsRevoked :
    (f : String) (test : Row → Bool) (now : ℕ) (rows : List Row)
    → IsRevoked f rows
    → IsRevoked f (update test (set_revoked now) rows)
set_revoked-IsRevoked f test now =
    update-IsRevoked f test (set_revoked now) (λ row. refl) (λ row h. cc)

pub mark-IsRevoked :
    (f id : String) (now : ℕ) (rows : List Row)
    → IsRevoked f rows
    → IsRevoked f (mark_refresh_token_revoked id now rows)
unfolding mark_refresh_token_revoked
mark-IsRevoked f id now = set_revoked-IsRevoked f (λ row. row.id == id && is_unrevoked row) now

pub revoke_refresh_families-IsRevoked :
    (f : String) (which : Revoked) (now : ℕ) (first second : String → Bool) (s : Store)
    → IsRevoked f s.rows
    → IsRevoked f (revoke_refresh_families which now first second s).1.rows
unfolding revoke_refresh_families revoke_matching_families
revoke_refresh_families-IsRevoked f which now first second s =
    set_revoked-IsRevoked f (λ row. selects which row && is_unrevoked row) now s.rows

left_live :
    (f : String) (chosen : Row → Bool) (now : ℕ) (rows : List Row)
    → number
        (λ row. row.id == f && is_unrevoked row)
        (update (λ row. chosen row && is_unrevoked row) (set_revoked now) rows)
      ≤ number (λ row. row.id == f && not (chosen row)) rows
left_live f chosen now [] = omega arith
left_live f chosen now (row ∷ rows) = ground (arith, left_live f chosen now rows)

-- A revocation revokes each row that it selects.
pub selected-IsRevoked :
    (which : Revoked) (now : ℕ) (first second : String → Bool) (s : Store) (row : Row)
    → IsMember row s.rows
    → selects which row ≡ true
    → number (λ r. r.id == row.id) s.rows ≤ 1
    → IsRevoked row.id (revoke_refresh_families which now first second s).1.rows
unfolding revoke_refresh_families revoke_matching_families
selected-IsRevoked which now first second s row m chosen once = (
  omega (
    arith,
    number_of_mem (λ r. r.id == row.id) row s.rows m (beq_refl row.id),
    number-update (λ r. r.id == row.id) (λ r. selects which r && is_unrevoked r) (set_revoked now)
        s.rows (λ r. refl),
  ),
  omega (
    arith,
    once,
    number_of_mem (λ r. r.id == row.id && selects which r) row s.rows m
        (ground (arith, beq_refl row.id, chosen)),
    number_split (λ r. r.id == row.id) (selects which) s.rows,
    left_live row.id (selects which) now s.rows,
  ),
)

mark_left :
    (f : String) (rows : List Row) → number (λ row. row.id == f && not (row.id == f)) rows ≡ 0
mark_left f [] = refl
mark_left f (row ∷ rows) = ground (arith, mark_left f rows)

-- Marking a family that is there revokes it.
pub marked-IsRevoked :
    (row : Row) (now : ℕ) (rows : List Row)
    → IsMember row rows
    → IsRevoked row.id (mark_refresh_token_revoked row.id now rows)
unfolding mark_refresh_token_revoked
marked-IsRevoked row now rows m = (
  omega (
    arith,
    number_of_mem (λ r. r.id == row.id) row rows m (beq_refl row.id),
    number-update (λ r. r.id == row.id) (λ r. r.id == row.id && is_unrevoked r) (set_revoked now)
        rows (λ r. refl),
  ),
  omega (arith, mark_left row.id rows, left_live row.id (λ r. r.id == row.id) now rows),
)

find-IsMember :
    (p : Row → Bool) (rows : List Row) (row : Row) → find p rows ≡ some row → IsMember row rows
find-IsMember p [] row h = cc
find-IsMember p (first ∷ rows) row h = elim (Bool-cases (p first)) [
  | inl here ↦ inl (cc (rw here at h))
  | inr there ↦ inr (find-IsMember p rows row (rw there at h))
]

pub get_refresh_token-IsMember :
    (key : String) (rows : List Row) (row : Row)
    → (get_refresh_token_by_hash key rows ≡ some row)
      ⊎ (get_refresh_token_by_family_id key rows ≡ some row)
    → IsMember row rows
unfolding get_refresh_token_by_hash get_refresh_token_by_family_id
get_refresh_token-IsMember key rows row (inl h) =
    find-IsMember (λ r. r.token_hash == key) rows row h
get_refresh_token-IsMember key rows row (inr h) = find-IsMember (λ r. r.id == key) rows row h
