-- ===== src/Do/RateLimit/Window.antt =====
-- What a run of checks inside one window answers.
-- About src/do/RateLimitDO.ts.
use keyforge.Prelude.{
  ℕ, ◌+◌, ◌-◌, ◌*◌, ◌≤◌, ◌<◌, min, ◌≡◌, Bool, some, List, [], ◌∷◌, arith, if◌then◌else◌, ltb, leb,
  length, filter, All,
}
use keyforge.Do.RateLimit.{RateLimitResult, Storage, check, checks, or_zero}

-- A storage whose window began at `start`, with `k` hits counted.
abbrev pub Counted : (start k : ℕ) → Storage → Type 0
Counted start k s = (s.window_start ≡ some start) × (s.count ≡ some k)

-- One check inside the window: it counts up to `limit + 1`, and is allowed while hits remain.
check_inside :
    (limit window_seconds start k now : ℕ) (s : Storage)
    → Counted start k s
    → now < start + window_seconds * 1000
    → k ≤ limit + 1
    → let r = check limit window_seconds now s in
      Counted start (min (k + 1) (limit + 1)) r.1
      × (r.0.allowed ≡ ltb k limit)
      × (r.0.first_denied ≡ (if ltb k limit then Bool.false else ltb k (limit + 1)))
unfolding check
check_inside limit window_seconds start k now s c h b = ground arith

abbrev pub number_allowed : List RateLimitResult → ℕ
number_allowed rs = length (filter (λ r. r.allowed) rs)

abbrev pub number_first_denied : List RateLimitResult → ℕ
number_first_denied rs = length (filter (λ r. r.first_denied) rs)

module _ (limit window_seconds start : ℕ) where
  abbrev pub Inside : ℕ → Type 0
  Inside now = now < start + window_seconds * 1000

  -- From `k` hits on, the rest of the quota is given out, and one denial is the first.
  checks-Inside :
      (k : ℕ) (times : List ℕ) (s : Storage)
      → Counted start k s
      → k ≤ limit + 1
      → All Inside times
      → let rs = (checks limit window_seconds times s).0 in
        (number_allowed rs ≡ min (length times) (limit - k))
        × (number_first_denied rs
            ≡ (if leb k limit then (if ltb (limit - k) (length times) then 1 else 0) else 0))
  unfolding checks
  checks-Inside k [] s c b h = ground arith
  checks-Inside k (now ∷ times) s c b (h, hs) =
      let (c', a, f) = check_inside limit window_seconds start k now s c h b in
      let ih =
        checks-Inside (min (k + 1) (limit + 1)) times (check limit window_seconds now s).1 c'
          (omega arith) hs in
      ground (arith, a, f, ih)

-- The check that opens a window.
check_opens :
    (limit window_seconds now : ℕ) (s : Storage)
    → or_zero s.window_start + window_seconds * 1000 ≤ now
    → let r = check limit window_seconds now s in
      Counted now 1 r.1 × (r.0.allowed ≡ leb 1 limit) × (r.0.first_denied ≡ ltb limit 1)
unfolding check
check_opens limit window_seconds now s h = ground arith

-- Of a run of checks that starts with one that opens a window and stays before the window's end,
-- the number allowed is the smaller of the run's length and `limit`, and the number reported as a
-- first denial is one if the run is longer than `limit`, else none.
pub checks_window :
    (limit window_seconds now : ℕ) (times : List ℕ) (s : Storage)
    → or_zero s.window_start + window_seconds * 1000 ≤ now
    → All (Inside limit window_seconds now) times
    → let rs = (checks limit window_seconds (now ∷ times) s).0 in
      (number_allowed rs ≡ min (length times + 1) limit)
      × (number_first_denied rs ≡ (if ltb limit (length times + 1) then 1 else 0))
unfolding checks
checks_window limit window_seconds now times s h hs =
    let (c, a, f) = check_opens limit window_seconds now s h in
    let ih =
      checks-Inside limit window_seconds now 1 times (check limit window_seconds now s).1 c
        (omega arith) hs in
    ground (arith, a, f, ih)
