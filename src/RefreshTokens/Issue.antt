-- ===== src/RefreshTokens/Issue.antt =====
-- `issueRefreshToken` of src/tokens/refresh-token.ts.
pub mod Cap
pub mod Revocation
pub mod Tests
use Prim.Native.String
use keyforge.Prelude.{
  ℕ, ◌+◌, ◌-◌, String, Bool, true, false, ◌&&◌, ◌||◌, Option, none, List, [], ◌∷◌, map, ltb, eqb,
  if◌then◌else◌, includes, ◌==◌, ◌!=◌, string_eq, filter, any, update, take, sort, number, codes,
}
use keyforge.Env.{maximum_active_families_per_user_client}
use keyforge.Env.TokenTtl
use keyforge.Security.Crypto.{Platform, hash_opaque_token}
use keyforge.Oauth.Errors.{Attempt, returned, thrown, invalid_grant, server_error}
use keyforge.Do.RefreshFamily
use keyforge.Do.RefreshFamily.{Init}
use keyforge.RefreshTokens.{
  Row, Store, is_unrevoked, at_family, revoke_family, set_revoked,
  revoke_refresh_family_durable_objects,
}

pub record IssueInput : Type 0 where
  pub user_id : String
  pub client_id : String
  pub session_id : Option String
  pub resource : String
  pub scope : String
  pub auth_time : ℕ
  pub remember_me : Bool

-- What an issuance draws and reads besides its input.
pub record Draw : Type 0 where
  pub family_id : String
  pub random : String
  pub now : ℕ
  pub init_now : ℕ
  -- The guard of the statement: the user is not disabled and the session, if any, is live.
  pub session_active : Bool
  -- Does the batch fail?
  pub outage : Bool
  -- The objects that answer in the first and the second round of revocations.
  pub first : String → Bool
  pub second : String → Bool

pub record Issued : Type 0 where
  pub token : String
  pub family_id : String
  pub expires_at : ℕ

abbrev pub token_of : Draw → String
token_of draw = String.◌++◌ draw.family_id (String.◌++◌ "." draw.random)

abbrev pub ttl : IssueInput → ℕ
ttl input = if input.remember_me then TokenTtl.refresh_token_remember_me else TokenTtl.refresh_token

abbrev pub init_input : Platform → Draw → IssueInput → Init
init_input p draw input = record {
  user_id = input.user_id;
  client_id = input.client_id;
  resource = input.resource;
  scope = input.scope;
  auth_time = input.auth_time;
  current_token_hash = hash_opaque_token p (token_of draw);
  absolute_expires_at = draw.now + ttl input;
}

abbrev pub new_row : Platform → Draw → IssueInput → Row
new_row p draw input = record {
  id = draw.family_id;
  token_hash = hash_opaque_token p (token_of draw);
  user_id = input.user_id;
  client_id = input.client_id;
  session_id = input.session_id;
  resource = input.resource;
  scope = input.scope;
  generation = 0;
  remember_me = input.remember_me;
  created_at = draw.now;
  last_rotated_at = draw.now;
  expires_at = draw.now + ttl input;
  auth_time = input.auth_time;
  revoked_at = none;
}

-- A live family of the user and the client.
pub is_live : (user_id client_id : String) → (now : ℕ) → Row → Bool
is_live user_id client_id now row =
    row.user_id == user_id
    && row.client_id == client_id
    && is_unrevoked row
    && ltb now row.expires_at

-- Texts in the order of their characters.
abbrev precedes : List ℕ → List ℕ → Bool
precedes [] ds = true
precedes (c ∷ cs) [] = false
precedes (c ∷ cs) (d ∷ ds) = ltb c d || (eqb c d && precedes cs ds)

-- `ORDER BY created_at ASC, id ASC`.
is_older : Row → Row → Bool
is_older a b =
    ltb a.created_at b.created_at
    || (eqb a.created_at b.created_at && precedes (codes a.id) (codes b.id))

-- The identifiers that the statement selects: the oldest of the excess, without the new family.
excess_ids : (family_id user_id client_id : String) → (now : ℕ) → List Row → List String
unfolding is_live is_older
excess_ids family_id user_id client_id now rows =
    map (λ row. row.id)
      (take (number (is_live user_id client_id now) rows - maximum_active_families_per_user_client)
        (sort is_older
          (filter (λ row. is_live user_id client_id now row && row.id != family_id) rows)))

-- The statement revokes nothing if the new family is not there.
abbrev pub is_issued : String → List Row → Bool
is_issued family_id rows = any (λ row. row.id == family_id && is_unrevoked row) rows

pub prune : (family_id user_id client_id : String) → (now : ℕ) → List Row → List Row
unfolding excess_ids
prune family_id user_id client_id now rows =
    if is_issued family_id rows
    then update (λ row. includes (excess_ids family_id user_id client_id now rows) row.id)
        (set_revoked now) rows
    else rows

pruned_ids : (family_id user_id client_id : String) → (now : ℕ) → List Row → List String
pruned_ids family_id user_id client_id now rows =
    if is_issued family_id rows
    then map (λ row. row.id)
        (filter (λ row. includes (excess_ids family_id user_id client_id now rows) row.id) rows)
    else []

-- After the batch: the inserted row, the pruned ones, and their objects.
commit : Platform → Draw → IssueInput → Store → Attempt Issued × Store
unfolding prune pruned_ids
commit p draw input s =
    let rows = new_row p draw input ∷ s.rows in
    if draw.session_active
    then (
      returned (record {
        token = token_of draw;
        family_id = draw.family_id;
        expires_at = draw.now + ttl input;
      }),
      record {
        rows = prune draw.family_id input.user_id input.client_id draw.now rows;
        families =
            revoke_refresh_family_durable_objects draw.first draw.second
              (pruned_ids draw.family_id input.user_id input.client_id draw.now rows) s.families;
      },
    )
    else (
      thrown invalid_grant,
      revoke_family draw.family_id
          (record s { rows = prune draw.family_id input.user_id input.client_id draw.now s.rows }),
    )

-- The batch fails with the database, or where the inserted row repeats a key of the table.
abbrev pub batch_fails : Platform → Draw → List Row → Bool
batch_fails p draw rows =
    draw.outage
    || (draw.session_active
        && any
            (λ row.
              row.id == draw.family_id || row.token_hash == hash_opaque_token p (token_of draw))
            rows)

pub issue_refresh_token : Platform → Draw → IssueInput → Store → Attempt Issued × Store
unfolding commit
issue_refresh_token p draw input s =
    let s' = record s {
      families =
          at_family draw.family_id (RefreshFamily.init (init_input p draw input) draw.init_now)
            s.families;
    } in
    if batch_fails p draw s.rows
    then (thrown server_error, revoke_family draw.family_id s')
    else commit p draw input s'
