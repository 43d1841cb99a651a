-- ===== src/RefreshTokens/Issue/Cap.antt =====
-- How many families a user and a client keep.
-- About src/tokens/refresh-token.ts.
use mathlib.Core.Path.{subst}
use keyforge.Prelude.{
  ℕ, ◌+◌, ◌-◌, ◌≤◌, min, String, ◌≡◌, refl, sym, ap, ◌∙◌, inl, inr, Bool, true, false, not, ◌&&◌,
  ◌||◌, List, [], ◌∷◌, map, arith, Bool-cases, length, any, filter, includes, ◌==◌, ◌!=◌, IsMember,
  string_eq, option_eq, nat_eq, beq_refl, update, number, take, sort, number-sort, number-filter,
  number_split, number-take, length-take, number_mono, number_cover, number-true,
}
use keyforge.Env.{maximum_active_families_per_user_client}
use keyforge.Security.Crypto.{Platform, hash_opaque_token}
use keyforge.Oauth.Errors.{returned, returned_injective}
use keyforge.RefreshTokens.{Row, Store, set_revoked}
use keyforge.RefreshTokens.Issue.{
  IssueInput, Draw, Issued, token_of, batch_fails, new_row, is_live, is_older, excess_ids,
  is_issued, prune, commit, issue_refresh_token,
}

revoked_dead : (u c : String) (now : ℕ) (row : Row) → is_live u c now (set_revoked now row) ≡ false
unfolding is_live
revoked_dead u c now row = ground arith

-- After an update that revokes, those live before and not selected are live.
live-update :
    (u c : String) (now : ℕ) (test : Row → Bool) (rows : List Row)
    → number (is_live u c now) (update test (set_revoked now) rows)
      ≡ number (λ row. is_live u c now row && not (test row)) rows
live-update u c now test [] = refl
live-update u c now test (row ∷ rows) =
    ground (arith, revoked_dead u c now row, live-update u c now test rows)

number_of_all :
    (known : List String) (rows : List Row)
    → ((row : Row) → IsMember row rows → includes known row.id ≡ true)
    → number (λ row. includes known row.id) rows ≡ length rows
number_of_all known [] h = refl
number_of_all known (row ∷ rows) h =
    ground (arith, h row (inl refl), number_of_all known rows (λ r m. h r (inr m)))

includes_own :
    (rows : List Row) (row : Row)
    → IsMember row rows
    → includes (map (λ r. r.id) rows) row.id ≡ true
includes_own [] row m = absurd m
includes_own (r ∷ rows) row (inl e) = ground (arith, ap (λ x. x.id) e, beq_refl row.id)
includes_own (r ∷ rows) row (inr m) = ground (arith, includes_own rows row m)

-- Each row of a list has its identifier among those of the list.
number_own :
    (rows : List Row) → number (λ row. includes (map (λ r. r.id) rows) row.id) rows ≡ length rows
number_own rows = number_of_all (map (λ r. r.id) rows) rows (includes_own rows)

not_among :
    (id : String) (rows : List Row)
    → number (λ row. row.id == id) rows ≡ 0
    → includes (map (λ r. r.id) rows) id ≡ false
not_among id [] h = refl
not_among id (row ∷ rows) h = ground (arith, not_among id rows)

number_none : (p : Row → Bool) (rows : List Row) → ((row : Row) → p row ≡ false) → number p rows ≡ 0
number_none p [] h = refl
number_none p (row ∷ rows) h = ground (arith, h row, number_none p rows h)

module _ (fid u c : String) (now : ℕ) (rows : List Row) where
  candidates : List Row
  candidates = filter (λ row. is_live u c now row && row.id != fid) rows

  chosen : List Row
  unfolding candidates
  chosen =
      take (number (is_live u c now) rows - maximum_active_families_per_user_client)
        (sort is_older candidates)

  excess_ids-chosen : excess_ids fid u c now rows ≡ map (λ r. r.id) chosen
  unfolding excess_ids chosen candidates
  excess_ids-chosen = refl

  length-chosen :
      length chosen
      ≡ min
          (number (is_live u c now) rows - maximum_active_families_per_user_client)
          (length candidates)
  unfolding chosen
  length-chosen =
      length-take _ (sort is_older candidates)
      ∙ ap (min (number (is_live u c now) rows - maximum_active_families_per_user_client)) (
          sym (number-true (sort is_older candidates))
          ∙ number-sort is_older (λ row. true) candidates
          ∙ number-true candidates)

  -- A test that the chosen rows pass is passed by so many of the table.
  number-chosen :
      (p : Row → Bool)
      → number p chosen ≤ number (λ row. (is_live u c now row && row.id != fid) && p row) rows
  unfolding chosen candidates
  number-chosen p = omega (
    arith,
    number-take p (number (is_live u c now) rows - maximum_active_families_per_user_client)
        (sort is_older candidates),
    number-sort is_older p candidates,
    number-filter p (λ row. is_live u c now row && row.id != fid) rows,
  )

  enough :
      number (λ row. row.id == fid) rows ≤ 1
      → number (is_live u c now) rows - maximum_active_families_per_user_client
        ≤ number (λ row. is_live u c now row && includes (map (λ r. r.id) chosen) row.id) rows
  unfolding candidates
  enough once = omega (
    arith,
    once,
    number_own chosen,
    length-chosen,
    number-chosen (λ row. includes (map (λ r. r.id) chosen) row.id),
    cover,
    mono,
  )
    where
      cover : number (is_live u c now) rows ≤ length candidates + number (λ row. row.id == fid) rows
      cover =
          number_cover (is_live u c now) (λ row. is_live u c now row && row.id != fid)
            (λ row. row.id == fid) rows (λ row h. ground (arith, h))

      mono :
          number
            (λ row.
              (is_live u c now row && row.id != fid) && includes (map (λ r. r.id) chosen) row.id)
            rows
          ≤ number (λ row. is_live u c now row && includes (map (λ r. r.id) chosen) row.id) rows
      mono = number_mono _ _ rows (λ row h. ground (arith, h))

  pruned :
      is_issued fid rows ≡ true
      → prune fid u c now rows
        ≡ update (λ row. includes (map (λ r. r.id) chosen) row.id) (set_revoked now) rows
  unfolding prune excess_ids chosen candidates
  pruned issued = rw issued refl

  -- The statement leaves no more families live than the maximum.
  prune_cap :
      number (λ row. row.id == fid) rows ≤ 1
      → is_issued fid rows ≡ true
      → number (is_live u c now) (prune fid u c now rows) ≤ maximum_active_families_per_user_client
  prune_cap once issued = omega (
    arith,
    enough once,
    ap (number (is_live u c now)) (pruned issued),
    live-update u c now (λ row. includes (map (λ r. r.id) chosen) row.id) rows,
    number_split (is_live u c now) (λ row. includes (map (λ r. r.id) chosen) row.id) rows,
  )

  new_kept : includes (map (λ r. r.id) chosen) fid ≡ false
  new_kept = not_among fid chosen (
      omega (
        arith,
        number-chosen (λ row. row.id == fid),
        number_none (λ row. (is_live u c now row && row.id != fid) && row.id == fid) rows
            (λ row. ground arith),
      ))

pub none_of_any :
    (p q : Row → Bool) (rows : List Row)
    → ((row : Row) → p row ≡ true → q row ≡ true)
    → any q rows ≡ false
    → number p rows ≡ 0
none_of_any p q [] h e = refl
none_of_any p q (row ∷ rows) h e = ground (arith, h row, none_of_any p q rows h)

kept-update :
    (test : Row → Bool) (change : Row → Row) (row : Row) (rows : List Row)
    → test row ≡ false
    → IsMember row (update test change (row ∷ rows))
kept-update test change row rows h = inl (rw h refl)

-- What a successful issuance leaves in the table.
abbrev pub Holds : Platform → Draw → IssueInput → List Row → Type 0
Holds p draw input rows =
    IsMember (new_row p draw input) rows
    × number (is_live input.user_id input.client_id draw.now) rows
      ≤ maximum_active_families_per_user_client

abbrev pub repeats : Platform → Draw → Row → Bool
repeats p draw row =
    row.id == draw.family_id || row.token_hash == hash_opaque_token p (token_of draw)

module _ (p : Platform) (draw : Draw) (input : IssueInput) (rows : List Row) where
  issued_new : is_issued draw.family_id (new_row p draw input ∷ rows) ≡ true
  issued_new = ground (arith, beq_refl draw.family_id)

  once_new :
      any (repeats p draw) rows ≡ false
      → number (λ row. row.id == draw.family_id) (new_row p draw input ∷ rows) ≤ 1
  once_new clear = ground (
    arith,
    none_of_any (λ row. row.id == draw.family_id) (repeats p draw) rows (λ row h. ground (arith, h))
        clear,
  )

  commit-Holds :
      any (repeats p draw) rows ≡ false
      → Holds p draw input (
          prune draw.family_id input.user_id input.client_id draw.now (new_row p draw input ∷ rows))
  commit-Holds clear =
      let u : String = input.user_id in
      let c : String = input.client_id in
      let table : List Row = new_row p draw input ∷ rows in
      (
        subst (IsMember (new_row p draw input))
            (sym (pruned draw.family_id u c draw.now table issued_new))
            (kept-update
              (λ row. includes (map (λ r. r.id) (chosen draw.family_id u c draw.now table)) row.id)
              (set_revoked draw.now) (new_row p draw input) rows
              (new_kept draw.family_id u c draw.now table)),
        prune_cap draw.family_id u c draw.now table (once_new clear) issued_new,
      )

pub clear_of :
    (p : Platform) (draw : Draw) (rows : List Row)
    → batch_fails p draw rows ≡ false
    → draw.session_active ≡ true
    → any (repeats p draw) rows ≡ false
clear_of p draw rows clear active = ground (arith, clear, active)

-- A token is returned only with its row in the table, not revoked, and the user and the client have no
-- more live families than the maximum.
pub issue_refresh_token-Holds :
    (p : Platform) (draw : Draw) (input : IssueInput) (s : Store) (issued : Issued)
    → (issue_refresh_token p draw input s).0 ≡ returned issued
    → issued.token ≡ token_of draw × Holds p draw input (issue_refresh_token p draw input s).1.rows
unfolding issue_refresh_token commit
issue_refresh_token-Holds p draw input s issued h = elim (Bool-cases (batch_fails p draw s.rows)) [
  | inl fails ↦ cc (rw fails at h)
  | inr clear ↦ elim (Bool-cases draw.session_active) [
    | inr inactive ↦ cc (rw (clear, inactive) at h)
    | inl active ↦
        rw (clear, active)
          (
            ap (λ x. x.token) (sym (returned_injective _ _ (rw (clear, active) at h))),
            commit-Holds p draw input s.rows (clear_of p draw s.rows clear active),
          )
  ]
]
