-- ===== src/Do/RateLimit/Tests.antt =====
-- Runs of the rate limiter, and the theorems at concrete inputs.
-- About src/do/RateLimitDO.ts.
use keyforge.Prelude.{◌≡◌, refl, true, false, some, [], ◌∷◌, arith, string_eq, option_eq, nat_eq}
use keyforge.Do.RateLimit.{Storage, empty, check, checks}
use keyforge.Do.RateLimit.Window.{number_allowed, number_first_denied, checks_window}
use keyforge.Do.RateLimit.Waiting.{check_after_retry}

-- Two hits in a minute from the time 100 000 on.
abbrev used_up : Storage
used_up = record { window_start = some 100000; count = some 2; alarm_at = some 161000 }

third_denied : (check 2 60 130500 used_up).0.allowed ≡ false
unfolding check
third_denied = refl

third_retry : (check 2 60 130500 used_up).0.retry_after_seconds ≡ 30
unfolding check
third_retry = refl

checks_window_example :
    let rs = (checks 2 60 (100000 ∷ 100001 ∷ 130500 ∷ 159999 ∷ []) empty).0 in
    (number_allowed rs ≡ 2) × (number_first_denied rs ≡ 1)
unfolding empty
checks_window_example =
    checks_window 2 60 100000 (100001 ∷ 130500 ∷ 159999 ∷ []) empty (omega arith) (omega arith)

check_after_retry_example : (check 2 60 160500 (check 2 60 130500 used_up).1).0.allowed ≡ true
unfolding check
check_after_retry_example =
    check_after_retry 2 60 130500 160500 used_up (omega arith) refl (omega arith)
