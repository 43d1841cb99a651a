-- ===== src/RefreshTokens/Rotate.antt =====
-- `rotateRefreshToken` of src/tokens/refresh-token.ts, and histories of calls on the store.
pub mod Mirror
pub mod Revocation
pub mod Sample
pub mod Tests
use Prim.Native.String
use keyforge.Prelude.{
  ℕ, String, Bool, true, false, ◌&&◌, List, [], ◌∷◌, if◌then◌else◌, ◌==◌, string_eq, update,
  changes_one,
}
use keyforge.Security.Crypto.{Platform, hash_opaque_token}
use keyforge.Oauth.Errors.{Attempt, returned, thrown, server_error}
use keyforge.Do.RefreshFamily
use keyforge.Do.RefreshFamily.{Meta, RotateResult, or_else}
use keyforge.RefreshTokens.{
  Row, Store, Revoked, is_unrevoked, at_family, revoke_family, set_revoked,
  mark_refresh_token_revoked, family_of, revoke_refresh_families,
}
use keyforge.RefreshTokens.Issue.{IssueInput, Draw, issue_refresh_token}

pub record Rotated : Type 0 where
  pub token : String
  pub user_id : String
  pub client_id : String
  pub resource : String
  pub scope : String
  pub auth_time : ℕ

pub data RotateOutcome : Type 0 where
  rotated : Rotated → RotateOutcome
  reuse_detected reauthorization_required : (family_id : String) → RotateOutcome
  too_soon : (retry_after_seconds : ℕ) → RotateOutcome
  invalid : RotateOutcome

-- What a rotation draws and reads besides its arguments: the random text, the two readings of the
-- object's clock, that of the statement, and whether the statement fails.
pub record RotateDraw : Type 0 where
  pub random : String
  pub rotated_at : ℕ
  pub rotated_later : ℕ
  pub now : ℕ
  pub outage : Bool

abbrev pub new_token : RotateDraw → String → String
new_token draw presented = String.◌++◌ (family_of presented) (String.◌++◌ "." draw.random)

abbrev pub is_live_row : String → Row → Bool
is_live_row family_id row = row.id == family_id && is_unrevoked row

abbrev pub mirror : (new_hash : String) → (now : ℕ) → Meta → Row → Row
mirror new_hash now meta row = record row {
  token_hash = new_hash;
  scope = meta.scope;
  generation = meta.generation;
  last_rotated_at = now;
}

abbrev pub rotated_from : String → Meta → Rotated
rotated_from token meta = record {
  token = token;
  user_id = meta.user_id;
  client_id = meta.client_id;
  resource = meta.resource;
  scope = meta.scope;
  auth_time = or_else meta.auth_time meta.created_at;
}

-- A statement that may fail.
abbrev pub run_statement :
    (outage : Bool) → RotateOutcome → (List Row → List Row) → Store → Attempt RotateOutcome × Store
run_statement true outcome statement s = (thrown server_error, s)
run_statement false outcome statement s = (returned outcome, record s { rows = statement s.rows })

-- The object has advanced: the row follows, or the family ends.
mirror_rotation :
    Platform → RotateDraw → (presented : String) → Meta → Store → Attempt RotateOutcome × Store
mirror_rotation p draw presented meta s =
    let family_id = family_of presented in
    let token = new_token draw presented in
    if draw.outage
    then (thrown server_error, revoke_family family_id s)
    else if changes_one (is_live_row family_id) s.rows
    then (
      returned (rotated (rotated_from token meta)),
      record s {
        rows =
            update (is_live_row family_id) (mirror (hash_opaque_token p token) draw.now meta)
              s.rows;
      },
    )
    else (
      returned invalid,
      revoke_family family_id (record s {
        rows =
            update (is_live_row family_id) (mirror (hash_opaque_token p token) draw.now meta)
              s.rows;
      }),
    )

-- The switch over the object's answer.
answer_rotation :
    Platform
    → RotateDraw
    → (presented : String) → RotateResult
    → Store
    → Attempt RotateOutcome × Store
unfolding mirror_rotation
answer_rotation p draw presented (RefreshFamily.rotated meta) s =
    mirror_rotation p draw presented meta s
answer_rotation p draw presented (RefreshFamily.reuse_detected meta) s =
    run_statement draw.outage (reuse_detected (family_of presented))
      (update (λ row. row.id == family_of presented) (set_revoked draw.now)) s
answer_rotation p draw presented (RefreshFamily.too_soon seconds) s =
    (returned (too_soon seconds), s)
answer_rotation p draw presented (RefreshFamily.generation_limit meta) s =
    run_statement draw.outage (reauthorization_required (family_of presented))
      (mark_refresh_token_revoked (family_of presented) draw.now) s
answer_rotation p draw presented RefreshFamily.revoked s = (returned invalid, s)
answer_rotation p draw presented RefreshFamily.expired s = (returned invalid, s)
answer_rotation p draw presented RefreshFamily.invalid s = (returned invalid, s)

pub rotate_refresh_token :
    Platform
    → RotateDraw
    → (presented expected_client_id next_scope : String) → Store
    → Attempt RotateOutcome × Store
unfolding answer_rotation
rotate_refresh_token p draw presented expected_client_id next_scope s =
    let family_id = family_of presented in
    let (result, storage) =
      RefreshFamily.rotate (hash_opaque_token p presented)
        (hash_opaque_token p (new_token draw presented)) expected_client_id next_scope
        draw.rotated_at draw.rotated_later (s.families family_id) in
    answer_rotation p draw presented result
      (record s { families = at_family family_id (λ old. storage) s.families })

-- The calls that the store receives.
pub data Call : Type 0 where
  issues : Draw → IssueInput → Call
  rotates : RotateDraw → (presented client_id next_scope : String) → Call
  revokes : Revoked → (now : ℕ) → (first second : String → Bool) → Call
  marks : (family_id : String) → (now : ℕ) → Call

pub step : Platform → Call → Store → Store
step p (issues draw input) s = (issue_refresh_token p draw input s).1
step p (rotates draw presented client_id next_scope) s =
    (rotate_refresh_token p draw presented client_id next_scope s).1
step p (revokes which now first second) s = (revoke_refresh_families which now first second s).1
step p (marks family_id now) s = record s { rows = mark_refresh_token_revoked family_id now s.rows }

abbrev pub rotated_of : Attempt RotateOutcome → List Rotated → List Rotated
rotated_of (returned (rotated r)) rest = r ∷ rest
rotated_of _ rest = rest

-- What the rotations of one family's tokens hand out in a history.
pub handed_out : Platform → (family_id : String) → List Call → Store → List Rotated
unfolding step
handed_out p family_id [] s = []
handed_out p family_id (rotates draw presented client_id next_scope ∷ calls) s =
    let rest =
      handed_out p family_id calls (step p (rotates draw presented client_id next_scope) s) in
    if family_of presented == family_id
    then rotated_of (rotate_refresh_token p draw presented client_id next_scope s).0 rest
    else rest
handed_out p family_id (call ∷ calls) s = handed_out p family_id calls (step p call s)
