-- ===== src/Lease.antt =====
-- The leases on jobs that one worker does at a time: acquireLease and releaseLease of
-- src/operations/maintenance.ts, acquireRotationLease and releaseRotationLease of
-- src/tokens/key-rotation.ts, over the table of migrations/0006_maintenance_leases.sql.
pub mod Exclusive
pub mod Tests
use keyforge.Prelude.{
  ℕ, ◌+◌, String, Bool, true, false, not, ◌&&◌, List, [], ◌∷◌, leb, if◌then◌else◌, filter, ◌==◌,
  string_eq, option_eq, nat_eq,
}

abbrev pub job_name : String
job_name = "scheduled-maintenance"

abbrev pub rotation_lease_seconds : ℕ
rotation_lease_seconds = 120

abbrev pub rotation_lease_name : String
rotation_lease_name = "signing-key-write"

-- A row of maintenance_leases; the job's name is the key.
pub record Lease : Type 0 where
  pub job_name : String
  pub owner_token : String
  pub lease_until : ℕ
  pub updated_at : ℕ

abbrev pub written : (job owner_token : String) → (now lease_seconds : ℕ) → Lease
written job owner_token now lease_seconds = record {
  job_name = job;
  owner_token = owner_token;
  lease_until = now + lease_seconds;
  updated_at = now;
}

-- The statement that both functions share: it inserts the row, or replaces one that ran out. The answer
-- is `meta.changes === 1`.
pub acquire : (job owner_token : String) → (now lease_seconds : ℕ) → List Lease → Bool × List Lease
acquire job owner_token now lease_seconds [] =
    (true, written job owner_token now lease_seconds ∷ [])
acquire job owner_token now lease_seconds (row ∷ rows) =
    let (acquired, rest) = acquire job owner_token now lease_seconds rows in
    if row.job_name == job
    then if leb row.lease_until now
      then (true, written job owner_token now lease_seconds ∷ rows)
      else (false, row ∷ rows)
    else (acquired, row ∷ rest)

abbrev pub is_lease_of : (job owner_token : String) → Lease → Bool
is_lease_of job owner_token row = row.job_name == job && row.owner_token == owner_token

pub release : (job owner_token : String) → List Lease → List Lease
release job owner_token rows = filter (λ row. not (is_lease_of job owner_token row)) rows

abbrev pub acquire_lease :
    (owner_token : String) → (now lease_seconds : ℕ) → List Lease → Bool × List Lease
unfolding acquire
acquire_lease = acquire job_name

abbrev pub release_lease : (owner_token : String) → List Lease → List Lease
unfolding release
release_lease = release job_name

abbrev pub acquire_rotation_lease :
    (owner_token : String) → (now : ℕ) → List Lease → Bool × List Lease
unfolding acquire
acquire_rotation_lease owner_token now =
    acquire rotation_lease_name owner_token now rotation_lease_seconds

abbrev pub release_rotation_lease : (owner_token : String) → List Lease → List Lease
unfolding release
release_rotation_lease = release rotation_lease_name

-- The workers' statements on the table.
pub data Call : Type 0 where
  acquires : (job owner_token : String) → (now lease_seconds : ℕ) → Call
  releases : (job owner_token : String) → Call

pub step : Call → List Lease → Bool × List Lease
unfolding acquire release
step (acquires job owner_token now lease_seconds) rows =
    acquire job owner_token now lease_seconds rows
step (releases job owner_token) rows = (false, release job owner_token rows)
