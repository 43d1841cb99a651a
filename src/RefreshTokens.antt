-- ===== src/RefreshTokens.antt =====
-- src/tokens/refresh-token.ts, src/tokens/refresh-token-revocation.ts and src/db/queries/tokens.ts:
-- the rows of refresh_tokens, and the refresh families that they mirror. Generated identifiers, random
-- texts and the clock's readings are arguments; so is whether the database and the objects answer.
pub mod Issue
pub mod Revocation
pub mod Rotate
pub mod Sample
use Prim.Native.Char.{code}
use Prim.Native.String
use keyforge.Prelude.{
  ℕ, String, Bool, true, false, not, ◌&&◌, Option, none, some, List, [], ◌∷◌, map, eqb,
  if◌then◌else◌, includes, unique, ◌==◌, ◌!=◌, string_eq, option_eq, nat_eq, filter, update, find,
  number,
}
use keyforge.Env.TokenTtl
use keyforge.Do.RefreshFamily
use keyforge.Do.RefreshFamily.{Storage}

pub record Row : Type 0 where
  pub id : String
  pub token_hash : String
  pub user_id : String
  pub client_id : String
  pub session_id : Option String
  pub resource : String
  pub scope : String
  pub generation : ℕ
  pub remember_me : Bool
  pub created_at : ℕ
  pub last_rotated_at : ℕ
  pub expires_at : ℕ
  pub auth_time : ℕ
  pub revoked_at : Option ℕ

-- The table, and the object that each family identifier names.
pub record Store : Type 0 where
  pub rows : List Row
  pub families : String → Storage

abbrev pub is_unset : Option ℕ → Bool
is_unset none = true
is_unset (some n) = false

-- `revoked_at IS NULL`.
abbrev pub is_unrevoked : Row → Bool
is_unrevoked row = is_unset row.revoked_at

-- A call of the object that `family_id` names.
abbrev pub at_family : String → (Storage → Storage) → (String → Storage) → String → Storage
at_family family_id change families id =
    if id == family_id then change (families id) else families id

abbrev pub revoke_family : String → Store → Store
revoke_family family_id s = record s {
  families = at_family family_id RefreshFamily.revoke s.families;
}

unfoldable pub get_refresh_token_by_hash : String → List Row → Option Row
get_refresh_token_by_hash token_hash rows = find (λ row. row.token_hash == token_hash) rows

unfoldable pub get_refresh_token_by_family_id : String → List Row → Option Row
get_refresh_token_by_family_id family_id rows = find (λ row. row.id == family_id) rows

abbrev pub set_revoked : (now : ℕ) → Row → Row
set_revoked now row = record row { revoked_at = some now }

pub mark_refresh_token_revoked : (family_id : String) → (now : ℕ) → List Row → List Row
mark_refresh_token_revoked family_id now rows =
    update (λ row. row.id == family_id && is_unrevoked row) (set_revoked now) rows

-- `split(".")[0]`.
unfoldable pub family_of : String → String
family_of String.[] = String.[]
family_of (String.◌∷◌ c s) =
    let rest = family_of s in if eqb (code c) b'.' then String.[] else String.◌∷◌ c rest

-- One round of calls: those that `answers` says are carried out.
revoke_round : (answers : String → Bool) → List String → (String → Storage) → String → Storage
revoke_round answers family_ids families id =
    if includes family_ids id && answers id then RefreshFamily.revoke (families id) else families id

-- Two rounds, the second for the identifiers whose call was rejected in the first.
pub revoke_refresh_family_durable_objects :
    (first second : String → Bool)
    → (family_ids : List String) → (String → Storage)
    → String
    → Storage
unfolding revoke_round
revoke_refresh_family_durable_objects first second family_ids families =
    let pending = unique family_ids in
    revoke_round second (filter (λ id. not (first id)) pending)
      (revoke_round first pending families)

-- `UPDATE … SET revoked_at = ? WHERE test AND revoked_at IS NULL RETURNING id`, and the objects after it.
revoke_matching_families :
    (test : Row → Bool) → (now : ℕ) → (first second : String → Bool) → Store → ℕ × Store
revoke_matching_families test now first second s =
    let matching = filter (λ row. test row && is_unrevoked row) s.rows in
    (
      number (λ row. test row && is_unrevoked row) s.rows,
      record {
        rows = update (λ row. test row && is_unrevoked row) (set_revoked now) s.rows;
        families =
            revoke_refresh_family_durable_objects first second (map (λ row. row.id) matching)
              s.families;
      },
    )

-- Which families a revocation is for.
pub data Revoked : Type 0 where
  by_user_client : (user_id client_id : String) → Revoked
  by_session : (session_id : String) → Revoked
  for_user : (user_id : String) → Revoked
  for_other_sessions : (user_id keep_session_id : String) → Revoked

abbrev is_other_session : String → Option String → Bool
is_other_session keep none = true
is_other_session keep (some session_id) = session_id != keep

pub selects : Revoked → Row → Bool
selects (by_user_client user_id client_id) row =
    row.user_id == user_id && row.client_id == client_id
selects (by_session session_id) row = row.session_id == some session_id
selects (for_user user_id) row = row.user_id == user_id
selects (for_other_sessions user_id keep_session_id) row =
    row.user_id == user_id && is_other_session keep_session_id row.session_id

-- The four functions of src/tokens/refresh-token-revocation.ts that revoke families.
pub revoke_refresh_families :
    Revoked → (now : ℕ) → (first second : String → Bool) → Store → ℕ × Store
unfolding revoke_matching_families
revoke_refresh_families which now first second s =
    revoke_matching_families (selects which) now first second s
