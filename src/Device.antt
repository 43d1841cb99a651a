-- ===== src/Device.antt =====
-- src/db/queries/devices.ts: the rows of device_authorization_sessions and the statements on them, with
-- those of src/db/queries/admin-devices.ts and src/db/queries/resources.ts and what the keys of
-- migrations/0001_initial.sql and migrations/0010_runtime_security_state.sql do.
-- One statement is one step. Where a statement writes a consent too, that part is not modelled.
pub mod Lifecycle
pub mod Once
pub mod Removal
pub mod Tests
use keyforge.Prelude.{
  update, changes_one, find, ℕ, ◌+◌, String, Bool, true, false, ◌&&◌, ◌||◌, Option, none, some,
  List, [], ◌∷◌, ltb, leb, if◌then◌else◌, length, any, filter, ◌==◌, string_eq, option_eq, nat_eq,
}

pub data Status : Type 0 where
  pending approved denied expired consumed : Status

pub record Row : Type 0 where
  pub id : String
  pub device_code_hash : String
  pub user_code_hash : String
  pub client_id : String
  pub resource_uri : Option String
  pub scope : String
  pub status : Status
  pub user_id : Option String
  pub session_id : Option String
  pub auth_time : Option ℕ
  pub poll_interval_seconds : ℕ
  pub poll_count : ℕ
  pub last_polled_at : Option ℕ
  pub expires_at : ℕ
  pub created_at : ℕ
  pub approved_at : Option ℕ
  pub denied_at : Option ℕ

pub record CreateInput : Type 0 where
  pub device_code_hash : String
  pub user_code_hash : String
  pub client_id : String
  pub resource_uri : Option String
  pub scope : String
  pub expires_at : ℕ
  pub poll_interval_seconds : ℕ
  pub max_active_sessions : ℕ

abbrev pub is_pending : Status → Bool
is_pending pending = true
is_pending _ = false

abbrev pub is_approved : Status → Bool
is_approved approved = true
is_approved _ = false

-- `status IN ('pending', 'approved')`.
abbrev pub is_active : Status → Bool
is_active status = is_pending status || is_approved status

abbrev pub new_row : String → CreateInput → ℕ → Row
new_row id input now = record {
  id = id;
  device_code_hash = input.device_code_hash;
  user_code_hash = input.user_code_hash;
  client_id = input.client_id;
  resource_uri = input.resource_uri;
  scope = input.scope;
  status = pending;
  user_id = none;
  session_id = none;
  auth_time = none;
  poll_interval_seconds = input.poll_interval_seconds;
  poll_count = 0;
  last_polled_at = none;
  expires_at = input.expires_at;
  created_at = now;
  approved_at = none;
  denied_at = none;
}

-- The keys of the table: a row that repeats one of them is rejected.
abbrev pub clashes : String → CreateInput → Row → Bool
clashes id input row =
    row.id == id
    || row.device_code_hash == input.device_code_hash
    || row.user_code_hash == input.user_code_hash

-- A session of the client that is active and not past its expiry.
abbrev pub counts : CreateInput → ℕ → Row → Bool
counts input now row =
    row.client_id == input.client_id && is_active row.status && ltb now row.expires_at

-- `id` is the generated one. `none` where the statement fails on a key.
unfoldable pub create_device_session :
    String → CreateInput → ℕ → List Row → Option (Bool × List Row)
create_device_session id input now rows =
    if leb input.max_active_sessions (length (filter (counts input now) rows))
    then some (false, rows)
    else if any (clashes id input) rows
    then none
    else some (true, new_row id input now ∷ rows)

pub get_device_by_user_code_hash : String → List Row → Option Row
get_device_by_user_code_hash hash rows = find (λ row. row.user_code_hash == hash) rows

unfoldable pub get_device_by_device_code_hash : String → List Row → Option Row
get_device_by_device_code_hash hash rows = find (λ row. row.device_code_hash == hash) rows

abbrev pub is_pending_at : String → Row → Bool
is_pending_at id row = row.id == id && is_pending row.status

abbrev pub is_approved_at : String → Row → Bool
is_approved_at id row = row.id == id && is_approved row.status

abbrev pub is_active_at : String → Row → Bool
is_active_at id row = row.id == id && is_active row.status

abbrev pub approved_by : (user_id session_id : String) → (auth_time now : ℕ) → Row → Row
approved_by user_id session_id auth_time now row = record row {
  status = approved;
  user_id = some user_id;
  session_id = some session_id;
  auth_time = some auth_time;
  approved_at = some now;
}

pub approve_device :
    (id user_id session_id : String) → (auth_time now : ℕ) → List Row → Bool × List Row
approve_device id user_id session_id auth_time now rows = (
  changes_one (is_pending_at id) rows,
  update (is_pending_at id) (approved_by user_id session_id auth_time now) rows,
)

pub deny_device : (id : String) → (now : ℕ) → List Row → Bool × List Row
deny_device id now rows = (
  changes_one (is_pending_at id) rows,
  update (is_pending_at id) (λ row. record row { status = denied; denied_at = some now }) rows,
)

unfoldable pub consume_approved_device : (id : String) → List Row → Bool × List Row
consume_approved_device id rows = (
  changes_one (is_approved_at id) rows,
  update (is_approved_at id) (λ row. record row { status = consumed }) rows,
)

pub mark_device_expired : (id : String) → List Row → List Row
mark_device_expired id rows = update (is_active_at id) (λ row. record row { status = expired }) rows

unfoldable pub record_device_poll : (id : String) → (now : ℕ) → List Row → List Row
record_device_poll id now rows =
    update (λ row. row.id == id)
      (λ row. record row { last_polled_at = some now; poll_count = row.poll_count + 1 }) rows

unfoldable pub record_device_slow_poll : (id : String) → (now : ℕ) → List Row → List Row
record_device_slow_poll id now rows =
    update (λ row. row.id == id)
      (λ row. record row {
        last_polled_at = some now;
        poll_count = row.poll_count + 1;
        poll_interval_seconds = row.poll_interval_seconds + 5;
      })
      rows

-- `revokeDeviceSession` of src/db/queries/admin-devices.ts.
unfoldable pub revoke_device_session : (id : String) → (now : ℕ) → List Row → Bool × List Row
revoke_device_session id now rows = (
  changes_one (is_active_at id) rows,
  update (is_active_at id) (λ row. record row { status = denied; denied_at = some now }) rows,
)

-- What `deleteResource` of src/db/queries/resources.ts does to the sessions for the resource.
unfoldable pub retire_resource : (resource_uri : String) → (now : ℕ) → List Row → List Row
retire_resource resource_uri now rows =
    update (λ row. row.resource_uri == some resource_uri && is_active row.status)
      (λ row. record row { status = denied; denied_at = some now }) rows

-- `ON DELETE SET NULL` of the user's and of the browser session's key.
unfoldable pub forget_user : (user_id : String) → List Row → List Row
forget_user user_id rows =
    update (λ row. row.user_id == some user_id) (λ row. record row { user_id = none }) rows

unfoldable pub forget_session : (session_id : String) → List Row → List Row
forget_session session_id rows =
    update (λ row. row.session_id == some session_id) (λ row. record row { session_id = none }) rows

-- The statements that add and change rows, each with its arguments and the clock's reading. Those that
-- remove rows are in Device/Removal.
pub data Call : Type 0 where
  creates : String → CreateInput → ℕ → Call
  approves : (id user_id session_id : String) → (auth_time now : ℕ) → Call
  denies : String → ℕ → Call
  consumes : String → Call
  expires : String → Call
  polls slow_polls revokes retires : String → ℕ → Call
  forgets_user forgets_session : String → Call

abbrev pub or_same : List Row → Option (Bool × List Row) → List Row
or_same rows none = rows
or_same rows (some (created, rows')) = rows'

pub step : Call → List Row → List Row
step (creates id input now) rows = or_same rows (create_device_session id input now rows)
step (approves id user_id session_id auth_time now) rows =
    (approve_device id user_id session_id auth_time now rows).1
step (denies id now) rows = (deny_device id now rows).1
step (consumes id) rows = (consume_approved_device id rows).1
step (expires id) rows = mark_device_expired id rows
step (polls id now) rows = record_device_poll id now rows
step (slow_polls id now) rows = record_device_slow_poll id now rows
step (revokes id now) rows = (revoke_device_session id now rows).1
step (retires resource_uri now) rows = retire_resource resource_uri now rows
step (forgets_user user_id) rows = forget_user user_id rows
step (forgets_session session_id) rows = forget_session session_id rows

pub run : List Call → List Row → List Row
run [] rows = rows
run (c ∷ calls) rows = run calls (step c rows)

-- Does this call consume the session for its caller?
pub succeeds : String → Call → List Row → Bool
succeeds id (consumes id') rows = id' == id && (consume_approved_device id' rows).0
succeeds id _ rows = false

-- How many calls of a history consume the session.
pub successes : String → List Call → List Row → ℕ
successes id [] rows = 0
successes id (c ∷ calls) rows =
    (if succeeds id c rows then 1 else 0) + successes id calls (step c rows)
