-- ===== src/Lease/Exclusive.antt =====
-- What the lease of one worker means to the others.
-- About src/operations/maintenance.ts and src/tokens/key-rotation.ts.
use keyforge.Prelude.{
  ℕ, ◌+◌, ◌≤◌, String, ◌≡◌, refl, Bool, true, false, not, ◌&&◌, ◌||◌, List, [], ◌∷◌, arith, ltb,
  eq_iff, if◌then◌else◌, all, &&-left, &&-right, ◌==◌, string_eq, option_eq, nat_eq, eqb,
}
use keyforge.Lease.{Lease, acquire, release, Call, acquires, releases, step}

-- The row of the job names the owner and the time up to which it holds.
pub is_held : (job owner_token : String) → (until : ℕ) → List Lease → Bool
is_held job owner_token until [] = false
is_held job owner_token until (row ∷ rows) =
    let rest = is_held job owner_token until rows in
    if row.job_name == job
    then row.owner_token == owner_token && eqb row.lease_until until
    else rest

-- A call of another worker, before the lease runs out, or one for another job.
abbrev pub is_other : (job owner_token : String) → (until : ℕ) → Call → Bool
is_other job owner_token until (acquires job' other now lease_seconds) =
    not (job' == job) || ltb now until
is_other job owner_token until (releases job' other) = not (job' == job && other == owner_token)

-- The call obtains the lease on the job.
abbrev pub obtains : (job : String) → Call → List Lease → Bool
unfolding step
obtains job (acquires job' other now lease_seconds) rows =
    job' == job && (step (acquires job' other now lease_seconds) rows).0
obtains job (releases job' other) rows = false

pub run : List Call → List Lease → List Lease
run [] rows = rows
run (call ∷ calls) rows = run calls (step call rows).1

-- Some of the calls obtains the lease.
pub obtained : (job : String) → List Call → List Lease → Bool
obtained job [] rows = false
obtained job (call ∷ calls) rows = obtains job call rows || obtained job calls (step call rows).1

acquire-held :
    (job owner : String) (now seconds : ℕ) (rows : List Lease)
    → (acquire job owner now seconds rows).0 ≡ true
    → is_held job owner (now + seconds) (acquire job owner now seconds rows).1 ≡ true
unfolding acquire is_held
acquire-held job owner now seconds [] h = ground (arith, eq_iff job job, eq_iff owner owner)
acquire-held job owner now seconds (row ∷ rows) h =
    ground (arith, eq_iff job job, eq_iff owner owner, acquire-held job owner now seconds rows)

acquire-keeps :
    (job owner job' other : String) (until now seconds : ℕ) (rows : List Lease)
    → is_held job owner until rows ≡ true
    → (not (job' == job) || ltb now until) ≡ true
    → ((job' == job && (acquire job' other now seconds rows).0) ≡ false)
      × (is_held job owner until (acquire job' other now seconds rows).1 ≡ true)
unfolding acquire is_held
acquire-keeps job owner job' other until now seconds [] held waits = cc
acquire-keeps job owner job' other until now seconds (row ∷ rows) held waits = ground (
  arith,
  eq_iff job' job,
  eq_iff row.job_name job,
  eq_iff row.job_name job',
  acquire-keeps job owner job' other until now seconds rows,
)

release-keeps :
    (job owner job' other : String) (until : ℕ) (rows : List Lease)
    → is_held job owner until rows ≡ true
    → not (job' == job && other == owner) ≡ true
    → is_held job owner until (release job' other rows) ≡ true
unfolding release is_held
release-keeps job owner job' other until [] held differs = held
release-keeps job owner job' other until (row ∷ rows) held differs = ground (
  arith,
  eq_iff job' job,
  eq_iff other owner,
  eq_iff row.owner_token owner,
  eq_iff row.owner_token other,
  eq_iff row.job_name job,
  eq_iff row.job_name job',
  release-keeps job owner job' other until rows,
)

step-keeps :
    (job owner : String) (until : ℕ) (call : Call) (rows : List Lease)
    → is_held job owner until rows ≡ true
    → is_other job owner until call ≡ true
    → (obtains job call rows ≡ false) × (is_held job owner until (step call rows).1 ≡ true)
unfolding step
step-keeps job owner until (acquires job' other now seconds) rows held waits =
    acquire-keeps job owner job' other until now seconds rows held waits
step-keeps job owner until (releases job' other) rows held differs =
    (refl, release-keeps job owner job' other until rows held differs)

run-keeps :
    (job owner : String) (until : ℕ) (calls : List Call) (rows : List Lease)
    → is_held job owner until rows ≡ true
    → all (is_other job owner until) calls ≡ true
    → (obtained job calls rows ≡ false) × (is_held job owner until (run calls rows) ≡ true)
unfolding run obtained
run-keeps job owner until [] rows held others = (refl, held)
run-keeps job owner until (call ∷ calls) rows held others =
    let this = is_other job owner until call in
    let rest = all (is_other job owner until) calls in
    let (kept, still) = step-keeps job owner until call rows held (&&-left this rest others) in
    ground (
      arith,
      kept,
      run-keeps job owner until calls (step call rows).1 still (&&-right this rest others),
    )

acquire_after :
    (job owner other : String) (until later seconds : ℕ) (rows : List Lease)
    → is_held job owner until rows ≡ true
    → until ≤ later
    → (acquire job other later seconds rows).0 ≡ true
unfolding acquire is_held
acquire_after job owner other until later seconds [] held late = refl
acquire_after job owner other until later seconds (row ∷ rows) held late =
    ground (arith, acquire_after job owner other until later seconds rows)

-- Once a worker has obtained the lease on a job, no call of the others obtains it, whatever calls they
-- make in whatever order, as long as each acquisition is before the lease runs out and the worker does
-- not release it; and then, from that time on, any worker obtains it.
pub acquire_exclusive :
    (job owner other : String) (now seconds later next_seconds : ℕ) (calls : List Call)
    (rows : List Lease)
    → (acquire job owner now seconds rows).0 ≡ true
    → all (is_other job owner (now + seconds)) calls ≡ true
    → now + seconds ≤ later
    → let held = (acquire job owner now seconds rows).1 in
      (obtained job calls held ≡ false)
      × ((acquire job other later next_seconds (run calls held)).0 ≡ true)
acquire_exclusive job owner other now seconds later next_seconds calls rows got others late =
    let held = (acquire job owner now seconds rows).1 in
    let (kept, still) =
      run-keeps job owner (now + seconds) calls held (acquire-held job owner now seconds rows got)
        others in
    (
      kept,
      acquire_after job owner other (now + seconds) later next_seconds (run calls held) still late,
    )
