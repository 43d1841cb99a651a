-- ===== src/Lease/Tests.antt =====
-- One lease, another worker that asks for it, and one for another job.
-- About src/operations/maintenance.ts and src/tokens/key-rotation.ts.
use keyforge.Prelude.{◌≡◌, refl, true, false, List, [], ◌∷◌, string_eq, option_eq, nat_eq, arith}
use keyforge.Lease.{
  Lease, job_name, rotation_lease_name, written, acquire, release, release_lease, Call, acquires,
  releases,
}
use keyforge.Lease.Exclusive.{run, obtained, acquire_exclusive}

abbrev stale : List Lease
stale = written job_name "w0" 0 300 ∷ []

abbrev held : List Lease
held = written job_name "w1" 300 300 ∷ []

abbrev calls : List Call
calls =
    acquires job_name "w2" 599 300
    ∷ releases job_name "w2"
    ∷ acquires rotation_lease_name "w2" 700 120
    ∷ []

obtains_stale : (acquire job_name "w1" 300 300 stale).0 ≡ true
unfolding acquire
obtains_stale = refl

releases_own : release_lease "w1" held ≡ []
unfolding release
releases_own = refl

acquire_exclusive_example :
    (obtained job_name calls (acquire job_name "w1" 300 300 stale).1 ≡ false)
    × ((acquire job_name "w2" 600 300 (run calls (acquire job_name "w1" 300 300 stale).1)).0 ≡ true)
acquire_exclusive_example =
    acquire_exclusive job_name "w1" "w2" 300 300 600 300 calls stale obtains_stale refl
      (omega arith)
