-- ===== src/RefreshTokens/Rotate/Revocation.antt =====
-- Rotations of a family whose rows are revoked.
-- About src/tokens/refresh-token.ts.
use keyforge.Prelude.{
  ℕ, ◌≤◌, String, ◌≡◌, refl, ◌∙◌, inl, inr, Bool, true, false, List, [], ◌∷◌, arith, eq_iff,
  Bool-cases, ◌==◌, IsMember, string_eq, option_eq, nat_eq, update, number, changes_one,
}
use keyforge.Security.Crypto.{Platform}
use keyforge.Do.RefreshFamily
use keyforge.Do.RefreshFamily.{Storage, Meta, RotateResult}
use keyforge.RefreshTokens.{Row, Store, Revoked, selects, family_of, revoke_refresh_families}
use keyforge.RefreshTokens.Revocation.{
  IsRevoked, selected-IsRevoked, update-IsRevoked, set_revoked-IsRevoked, mark-IsRevoked,
  revoke_refresh_families-IsRevoked,
}
use keyforge.RefreshTokens.Issue.Revocation.{issue-IsRevoked}
use keyforge.RefreshTokens.Rotate.{
  Rotated, RotateDraw, is_live_row, mirror, rotated_of, mirror_rotation, answer_rotation,
  rotate_refresh_token, Call, issues, rotates, revokes, marks, step, handed_out,
}

mirror-IsRevoked :
    (f id hash : String) (now : ℕ) (meta : Meta) (rows : List Row)
    → IsRevoked f rows
    → IsRevoked f (update (is_live_row id) (mirror hash now meta) rows)
mirror-IsRevoked f id hash now meta =
    update-IsRevoked f (is_live_row id) (mirror hash now meta) (λ row. refl) (λ row h. h)

module _ (f : String) (p : Platform) (draw : RotateDraw) (presented : String) where
  mirror_rotation-IsRevoked :
      (meta : Meta) (s : Store)
      → IsRevoked f s.rows
      → IsRevoked f (mirror_rotation p draw presented meta s).1.rows
  unfolding mirror_rotation
  mirror_rotation-IsRevoked meta s h = elim (Bool-cases draw.outage) [
    | inl fails ↦ rw fails h
    | inr works ↦ elim (Bool-cases (changes_one (is_live_row (family_of presented)) s.rows)) [
      | inl one ↦ rw (works, one) (mirror-IsRevoked f _ _ _ meta s.rows h)
      | inr other ↦ rw (works, other) (mirror-IsRevoked f _ _ _ meta s.rows h)
    ]
  ]

  answer-IsRevoked :
      (result : RotateResult) (s : Store)
      → IsRevoked f s.rows
      → IsRevoked f (answer_rotation p draw presented result s).1.rows
  unfolding answer_rotation
  answer-IsRevoked (RefreshFamily.rotated meta) s h = mirror_rotation-IsRevoked meta s h
  answer-IsRevoked (RefreshFamily.reuse_detected meta) s h = elim (Bool-cases draw.outage) [
    | inl fails ↦ rw fails h
    | inr works ↦
        rw works (set_revoked-IsRevoked f (λ row. row.id == family_of presented) draw.now s.rows h)
  ]
  answer-IsRevoked (RefreshFamily.too_soon seconds) s h = h
  answer-IsRevoked (RefreshFamily.generation_limit meta) s h = elim (Bool-cases draw.outage) [
    | inl fails ↦ rw fails h
    | inr works ↦ rw works (mark-IsRevoked f (family_of presented) draw.now s.rows h)
  ]
  answer-IsRevoked RefreshFamily.revoked s h = h
  answer-IsRevoked RefreshFamily.expired s h = h
  answer-IsRevoked RefreshFamily.invalid s h = h

  none_live :
      (s : Store)
      → IsRevoked f s.rows
      → family_of presented ≡ f
      → changes_one (is_live_row (family_of presented)) s.rows ≡ false
  none_live s h own = rw own (ground (arith, h.1))

  -- The answer hands out nothing if the presented token is of that family.
  answer-none :
      (result : RotateResult) (s : Store) (rest : List Rotated)
      → IsRevoked f s.rows
      → family_of presented ≡ f
      → rotated_of (answer_rotation p draw presented result s).0 rest ≡ rest
  unfolding answer_rotation mirror_rotation
  answer-none (RefreshFamily.rotated meta) s rest h own = elim (Bool-cases draw.outage) [
    | inl fails ↦ rw fails refl
    | inr works ↦ rw (works, none_live s h own) refl
  ]
  answer-none (RefreshFamily.reuse_detected meta) s rest h own = elim (Bool-cases draw.outage) [
    | inl fails ↦ rw fails refl
    | inr works ↦ rw works refl
  ]
  answer-none (RefreshFamily.too_soon seconds) s rest h own = refl
  answer-none (RefreshFamily.generation_limit meta) s rest h own = elim (Bool-cases draw.outage) [
    | inl fails ↦ rw fails refl
    | inr works ↦ rw works refl
  ]
  answer-none RefreshFamily.revoked s rest h own = refl
  answer-none RefreshFamily.expired s rest h own = refl
  answer-none RefreshFamily.invalid s rest h own = refl

step-IsRevoked :
    (f : String) (p : Platform) (call : Call) (s : Store)
    → IsRevoked f s.rows
    → IsRevoked f (step p call s).rows
unfolding step rotate_refresh_token
step-IsRevoked f p (issues draw input) s h = issue-IsRevoked f p draw input s h
step-IsRevoked f p (rotates draw presented client next) s h =
    answer-IsRevoked f p draw presented _ (record s { families = _ }) h
step-IsRevoked f p (revokes which now first second) s h =
    revoke_refresh_families-IsRevoked f which now first second s h
step-IsRevoked f p (marks id now) s h = mark-IsRevoked f id now s.rows h

pub handed_out-IsRevoked :
    (f : String) (p : Platform) (calls : List Call) (s : Store)
    → IsRevoked f s.rows
    → handed_out p f calls s ≡ []
unfolding handed_out rotate_refresh_token
handed_out-IsRevoked f p [] s h = refl
handed_out-IsRevoked f p (issues draw input ∷ calls) s h =
    handed_out-IsRevoked f p calls _ (step-IsRevoked f p (issues draw input) s h)
handed_out-IsRevoked f p (rotates draw presented client next ∷ calls) s h =
    let call = rotates draw presented client next in
    let later = handed_out-IsRevoked f p calls _ (step-IsRevoked f p call s h) in
    elim (Bool-cases (family_of presented == f)) [
      | inr other ↦ rw other later
      | inl own ↦ rw own (
          answer-none f p draw presented _ (record s { families = _ }) _ h ((eq_iff _ _).0 own)
          ∙ later)
    ]
handed_out-IsRevoked f p (revokes which now first second ∷ calls) s h =
    handed_out-IsRevoked f p calls _ (step-IsRevoked f p (revokes which now first second) s h)
handed_out-IsRevoked f p (marks id now ∷ calls) s h =
    handed_out-IsRevoked f p calls _ (step-IsRevoked f p (marks id now) s h)

-- Once a revocation has selected a row, whose identifier stands in the table at most once, no token of
-- its family is rotated by any later call, even if the family's object never answered.
pub revoked_never_rotated :
    (p : Platform) (which : Revoked) (now : ℕ) (first second : String → Bool) (s : Store)
    (row : Row) (calls : List Call)
    → IsMember row s.rows
    → selects which row ≡ true
    → number (λ r. r.id == row.id) s.rows ≤ 1
    → handed_out p row.id calls (revoke_refresh_families which now first second s).1 ≡ []
revoked_never_rotated p which now first second s row calls m chosen once =
    handed_out-IsRevoked row.id p calls _
      (selected-IsRevoked which now first second s row m chosen once)
