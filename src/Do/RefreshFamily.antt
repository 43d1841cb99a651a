-- ===== src/Do/RefreshFamily.antt =====
-- src/do/RefreshTokenFamilyDO.ts. Times are seconds; the alarm's time is in milliseconds. Each method
-- is one storage transaction. A family that was stored before `authTime` and `lastRotatedAt` existed
-- has them `none`.
pub mod Fields
pub mod Reuse
pub mod Bounds
pub mod Owner
pub mod Tests
use keyforge.Prelude.{
  ℕ, ◌+◌, ◌-◌, ◌*◌, String, Bool, true, false, ◌&&◌, ◌||◌, Option, none, some, List, [], ◌∷◌, ltb,
  leb, if◌then◌else◌, ◌==◌, ◌!=◌, string_eq, includes,
}
use keyforge.Env.{minimum_rotation_interval_seconds, maximum_generation}

pub record Init : Type 0 where
  pub user_id : String
  pub client_id : String
  pub resource : String
  pub scope : String
  pub auth_time : ℕ
  pub current_token_hash : String
  pub absolute_expires_at : ℕ

pub record Meta : Type 0 where
  pub user_id : String
  pub client_id : String
  pub resource : String
  pub scope : String
  pub auth_time : Option ℕ
  pub absolute_expires_at : ℕ
  pub created_at : ℕ
  pub generation : ℕ
  pub revoked : Bool
  pub last_rotated_at : Option ℕ

-- `usedHashes` is the key of old families; `used` holds the hashes with a key `used:<hash>`.
pub record Storage : Type 0 where
  pub meta : Option Meta
  pub current_hash : Option String
  pub used_hashes : Option (List String)
  pub used : List String
  pub alarm_at : Option ℕ

pub data RotateResult : Type 0 where
  rotated reuse_detected generation_limit : Meta → RotateResult
  too_soon : ℕ → RotateResult
  revoked expired invalid : RotateResult

pub empty : Storage
empty = record { meta = none; current_hash = none; used_hashes = none; used = []; alarm_at = none }

pub first_meta : Init → (now : ℕ) → Meta
first_meta input now = record {
  user_id = input.user_id;
  client_id = input.client_id;
  resource = input.resource;
  scope = input.scope;
  auth_time = some input.auth_time;
  absolute_expires_at = input.absolute_expires_at;
  created_at = now;
  generation = 0;
  revoked = false;
  last_rotated_at = some now;
}

init_keys : Init → (now : ℕ) → Option Meta → Storage → Storage
unfolding first_meta
init_keys input now none s = record s {
  meta = some (first_meta input now);
  current_hash = some input.current_token_hash;
}
init_keys input now (some meta) s = s

pub init : Init → (now : ℕ) → Storage → Storage
unfolding init_keys
init input now s =
    let s' = init_keys input now s.meta s in
    record s' { alarm_at = some (input.absolute_expires_at * 1000 + 60000) }

abbrev pub or_else : Option ℕ → ℕ → ℕ
or_else none n = n
or_else (some m) n = m

pub burn : Meta → Meta
burn meta = record meta { revoked = true }

unfoldable pub advance : Meta → (next_scope : String) → (now : ℕ) → Meta
advance meta next_scope now = record meta {
  auth_time = some (or_else meta.auth_time meta.created_at);
  scope = next_scope;
  generation = meta.generation + 1;
  last_rotated_at = some now;
}

-- `Math.max(0, now - lastRotatedAt)`.
elapsed : Meta → (now : ℕ) → ℕ
elapsed meta now = now - or_else meta.last_rotated_at meta.created_at

-- The presented hash is the current one.
rotate_current :
    (current new_hash next_scope : String) → (now : ℕ) → Meta → Storage → RotateResult × Storage
unfolding burn advance elapsed
rotate_current current new_hash next_scope now meta s =
    if leb maximum_generation meta.generation
    then (generation_limit (burn meta), record s { meta = some (burn meta) })
    else if ltb 0 meta.generation && ltb (elapsed meta now) minimum_rotation_interval_seconds
    then (too_soon (minimum_rotation_interval_seconds - elapsed meta now), s)
    else (
      rotated (advance meta next_scope now),
      record s {
        meta = some (advance meta next_scope now);
        current_hash = some new_hash;
        used = current ∷ s.used;
      },
    )

legacy_includes : Option (List String) → String → Bool
legacy_includes none hash = false
legacy_includes (some hashes) hash = includes hashes hash

pub was_used : String → Storage → Bool
unfolding legacy_includes
was_used hash s = legacy_includes s.used_hashes hash || includes s.used hash

-- The presented hash is not the current one.
rotate_other : (presented : String) → Meta → Storage → RotateResult × Storage
unfolding burn
rotate_other presented meta s =
    if was_used presented s
    then (reuse_detected (burn meta), record s { meta = some (burn meta) })
    else (invalid, s)

-- `now` is what the expiry is compared with, `later` the second reading of the clock.
rotate_family :
    (presented new_hash client_id next_scope : String)
    → (now later : ℕ) → Meta
    → String
    → Storage
    → RotateResult × Storage
rotate_family presented new_hash client_id next_scope now later meta current s =
    if meta.client_id != client_id
    then (invalid, s)
    else if meta.revoked
    then (revoked, s)
    else if ltb meta.absolute_expires_at now
    then (expired, s)
    else if presented == current
    then rotate_current current new_hash next_scope later meta s
    else rotate_other presented meta s

rotate_stored :
    (presented new_hash client_id next_scope : String)
    → (now later : ℕ) → Option Meta
    → Option String
    → Storage
    → RotateResult × Storage
rotate_stored presented new_hash client_id next_scope now later (some meta) (some current) s =
    rotate_family presented new_hash client_id next_scope now later meta current s
rotate_stored presented new_hash client_id next_scope now later _ _ s = (invalid, s)

pub rotate :
    (presented new_hash client_id next_scope : String)
    → (now later : ℕ) → Storage
    → RotateResult × Storage
unfolding rotate_stored rotate_family
rotate presented new_hash client_id next_scope now later s =
    rotate_stored presented new_hash client_id next_scope now later s.meta s.current_hash s

revoke_meta : Option Meta → Storage → Storage
unfolding burn
revoke_meta none s = s
revoke_meta (some meta) s = record s { meta = some (burn meta) }

pub revoke : Storage → Storage
unfolding revoke_meta
revoke s = revoke_meta s.meta s

pub get_state : Storage → Option Meta
get_state s = s.meta

pub alarm : Storage → Storage
unfolding empty
alarm s = empty

-- The calls that a family receives once it was initialised; Event has its initialisations too.
pub data Call : Type 0 where
  rotates : (presented new_hash client_id next_scope : String) → (now later : ℕ) → Call
  revokes alarms : Call

pub step : Call → Storage → Storage
step (rotates presented new_hash client_id next_scope now later) s =
    (rotate presented new_hash client_id next_scope now later s).1
step revokes s = revoke s
step alarms s = alarm s

pub run : List Call → Storage → Storage
run [] s = s
run (c ∷ calls) s = run calls (step c s)

abbrev pub rotation : RotateResult → Option Meta
rotation (rotated meta) = some meta
rotation (reuse_detected meta) = none
rotation (generation_limit meta) = none
rotation (too_soon seconds) = none
rotation revoked = none
rotation expired = none
rotation invalid = none

-- All that an object receives.
pub data Event : Type 0 where
  inits : Init → (now : ℕ) → Event
  receives : Call → Event

pub event_step : Event → Storage → Storage
event_step (inits input now) s = init input now s
event_step (receives c) s = step c s

-- The rotation that an event grants.
pub event_rotation : Event → Storage → Option Meta
event_rotation (inits input now) s = none
event_rotation (receives (rotates presented new_hash client_id next_scope now later)) s =
    rotation (rotate presented new_hash client_id next_scope now later s).0
event_rotation (receives revokes) s = none
event_rotation (receives alarms) s = none

abbrev pub prepend : Option Meta → List Meta → List Meta
prepend none metas = metas
prepend (some meta) metas = meta ∷ metas

-- The successful rotations of a history, in order.
pub rotations : List Call → Storage → List Meta
rotations [] s = []
rotations (rotates presented new_hash client_id next_scope now later ∷ calls) s =
    let (r, s') = rotate presented new_hash client_id next_scope now later s in
    prepend (rotation r) (rotations calls s')
rotations (revokes ∷ calls) s = rotations calls (revoke s)
rotations (alarms ∷ calls) s = rotations calls (alarm s)
