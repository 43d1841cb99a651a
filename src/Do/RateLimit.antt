-- ===== src/Do/RateLimit.antt =====
-- src/do/RateLimitDO.ts and the uses of it in src/security/rate-limit.ts. Times are milliseconds.
-- A key that the storage lacks is `none`; `deleteAll` drops the alarm too, as the runtime's
-- compatibility date of wrangler.toml says.
pub mod Window
pub mod Waiting
pub mod Tests
use keyforge.Prelude.{
  ℕ, ◌+◌, ◌-◌, ◌*◌, ◌/◌, min, Bool, ◌&&◌, ◌||◌, not, Option, none, some, List, [], ◌∷◌, leb,
  if◌then◌else◌, ◌!=◌, nat_eq, any,
}

pub record RateLimitResult : Type 0 where
  pub allowed : Bool
  pub remaining : ℕ
  pub retry_after_seconds : ℕ
  pub first_denied : Bool

pub record Storage : Type 0 where
  pub window_start : Option ℕ
  pub count : Option ℕ
  pub alarm_at : Option ℕ

abbrev pub or_zero : Option ℕ → ℕ
or_zero none = 0
or_zero (some n) = n

pub empty : Storage
empty = record { window_start = none; count = none; alarm_at = none }

-- `now - storedStart >= windowMs`, over the integers.
is_new_window : ℕ → ℕ → Storage → Bool
is_new_window window_ms now s = leb (or_zero s.window_start + window_ms) now

next_start : ℕ → ℕ → Storage → ℕ
unfolding is_new_window
next_start window_ms now s = if is_new_window window_ms now s then now else or_zero s.window_start

next_count : ℕ → ℕ → ℕ → Storage → ℕ
unfolding is_new_window
next_count limit window_ms now s =
    if is_new_window window_ms now s then 1 else min (or_zero s.count + 1) (limit + 1)

write : ℕ → ℕ → ℕ → Storage → Storage
unfolding next_count next_start
write limit window_ms now s =
    if is_new_window window_ms now s
    then record {
      window_start = some now;
      count = some (next_count limit window_ms now s);
      alarm_at = some (now + window_ms + 1000);
    }
    else if next_count limit window_ms now s != or_zero s.count
    then record s { count = some (next_count limit window_ms now s) }
    else s

answer : ℕ → ℕ → ℕ → Storage → RateLimitResult
unfolding next_count next_start
answer limit window_ms now s =
    let allowed = leb (next_count limit window_ms now s) limit in
    record {
      allowed = allowed;
      remaining = limit - next_count limit window_ms now s;
      retry_after_seconds =
          if allowed then 0 else (next_start window_ms now s + window_ms - now + 999) / 1000;
      first_denied = not allowed && (is_new_window window_ms now s || leb (or_zero s.count) limit);
    }

-- `check`: the result, and the storage after the writes.
pub check : (limit window_seconds now : ℕ) → Storage → RateLimitResult × Storage
unfolding write answer
check limit window_seconds now s =
    (answer limit (window_seconds * 1000) now s, write limit (window_seconds * 1000) now s)

pub reset : Storage → Storage
unfolding empty
reset s = empty

pub alarm : Storage → Storage
unfolding empty
alarm s = empty

-- The results of a run of checks, in order, and the storage after it.
pub checks : (limit window_seconds : ℕ) → List ℕ → Storage → List RateLimitResult × Storage
checks limit window_seconds [] s = ([], s)
checks limit window_seconds (now ∷ times) s =
    let (r, s') = check limit window_seconds now s in
    let (rs, t) = checks limit window_seconds times s' in (r ∷ rs, t)

-- `shouldAuditRateLimit`.
pub should_audit_rate_limit : List RateLimitResult → Bool
should_audit_rate_limit results = any (λ r. not r.allowed && r.first_denied) results
