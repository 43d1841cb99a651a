-- ===== src/Device/Removal.antt =====
-- How long a device session stays in its table, and in which states.
-- About src/db/queries/devices.ts, src/operations/maintenance.ts, and the deletion of a client in
-- src/db/queries/clients.ts, which the key of migrations/0001_initial.sql passes on to its sessions.
use keyforge.Prelude.{
  ℕ, String, ◌≡◌, Bool, true, false, ◌&&◌, ◌||◌, List, [], ◌∷◌, ltb, filter, ◌!=◌, string_eq,
}
use keyforge.Cleanup.{CleanupBranch, bounded_cleanup}
use keyforge.Device.{Status, pending, approved, denied, expired, consumed, Row, Call, step}

abbrev pub has_status : Status → Status → Bool
has_status pending pending = true
has_status approved approved = true
has_status denied denied = true
has_status expired expired = true
has_status consumed consumed = true
has_status _ _ = false

abbrev pub ended_branch : (status : Status) → (cutoff : ℕ) → CleanupBranch Row
ended_branch status cutoff = record {
  terminal = λ row. row.created_at;
  predicate = λ row. has_status row.status status && ltb row.created_at cutoff;
}

-- The branches that `cleanupTerminalRows` gives for this table.
abbrev pub session_branches : (cutoff : ℕ) → List (CleanupBranch Row)
session_branches cutoff =
    record { terminal = λ row. row.expires_at; predicate = λ row. ltb row.expires_at cutoff }
    ∷ ended_branch denied cutoff
    ∷ ended_branch expired cutoff
    ∷ ended_branch consumed cutoff
    ∷ []

-- All that the table receives.
pub data Event : Type 0 where
  statement : Call → Event
  cleans_up : (cutoff batch_size : ℕ) → Event
  deletes_client : (client_id : String) → Event

abbrev pub cascade_client : (client_id : String) → List Row → List Row
cascade_client client_id rows = filter (λ row. row.client_id != client_id) rows

-- The session is past its retention.
abbrev pub is_outdated : (cutoff : ℕ) → Row → Bool
is_outdated cutoff row =
    ltb row.expires_at cutoff
    || (has_status row.status denied
        || has_status row.status expired
        || has_status row.status consumed)
      && ltb row.created_at cutoff

-- The event removes the session.
abbrev pub Removes : Row → Event → Type 0
Removes row (statement call) = ⊥
Removes row (cleans_up cutoff batch_size) = is_outdated cutoff row ≡ true
Removes row (deletes_client client_id) = row.client_id ≡ client_id

module _ (key_before : String → String → Bool) where
  pub event_step : Event → List Row → List Row
  event_step (statement call) rows = step call rows
  event_step (cleans_up cutoff batch_size) rows =
      bounded_cleanup key_before (λ row. row.id) batch_size (session_branches cutoff) rows
  event_step (deletes_client client_id) rows = cascade_client client_id rows

  pub event_run : List Event → List Row → List Row
  unfolding event_step
  event_run [] rows = rows
  event_run (event ∷ events) rows = event_run events (event_step event rows)
