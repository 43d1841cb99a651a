-- ===== src/Do/RateLimit/Waiting.antt =====
-- What a denied caller is told.
-- About src/do/RateLimitDO.ts.
use keyforge.Prelude.{ℕ, ◌+◌, ◌*◌, ◌≤◌, ◌≡◌, true, false, arith}
use keyforge.Do.RateLimit.{Storage, check}

-- A denied caller that waits as long as the answer says is allowed by the next check, if the limit is
-- at least one.
pub check_after_retry :
    (limit window_seconds now later : ℕ) (s : Storage)
    → 1 ≤ limit
    → (check limit window_seconds now s).0.allowed ≡ false
    → now + (check limit window_seconds now s).0.retry_after_seconds * 1000 ≤ later
    → (check limit window_seconds later (check limit window_seconds now s).1).0.allowed ≡ true
unfolding check
check_after_retry limit window_seconds now later s h denied waited = ground arith
