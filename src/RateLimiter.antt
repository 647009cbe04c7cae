-- ===== src/RateLimiter.antt =====
-- src/security/rate-limiter.ts: the limit on captures per window of time, and what it dropped.
pub mod Window
pub mod Drops
mod Tests
use errorcore.Common.{
  ℕ, ◌+◌, Bool, true, false, Option, none, some, List, [], ◌∷◌, ◌++◌, ltb, ◌==◌, if◌then◌else◌,
  or_else, is_none, length, keep_if,
}
use errorcore.Clock.{max_safe_integer}

pub record RateLimiter : Type 0 where
  pub max_captures : ℕ
  pub window_ms : ℕ
  pub timestamps : List ℕ
  pub dropped_count : ℕ
  pub dropped_since_last_acquire : ℕ
  pub first_drop_timestamp : Option ℕ
  pub last_drop_timestamp : Option ℕ

-- The two times are read without a test for null.
pub record RateLimiterDropSummary : Type 0 where
  pub dropped_count : ℕ
  pub first_drop_ms : Option ℕ
  pub last_drop_ms : Option ℕ

unfoldable pub new_rate_limiter : Option ℕ → Option ℕ → RateLimiter
new_rate_limiter max_captures window_ms = record {
  max_captures = or_else max_captures 10;
  window_ms = or_else window_ms 60000;
  timestamps = [];
  dropped_count = 0;
  dropped_since_last_acquire = 0;
  first_drop_timestamp = none;
  last_drop_timestamp = none;
}

-- `timestamp > now - windowMs`, whose difference may be negative.
abbrev pub is_recent : ℕ → ℕ → ℕ → Bool
is_recent window_ms now timestamp = ltb now (timestamp + window_ms)

abbrev pub saturating_increment : ℕ → ℕ
saturating_increment n = if ltb n max_safe_integer then n + 1 else n

-- The branch of `tryAcquire` that refuses.
abbrev pub drop_capture : ℕ → RateLimiter → RateLimiter
drop_capture now r = record r {
  dropped_count = saturating_increment r.dropped_count;
  dropped_since_last_acquire = saturating_increment r.dropped_since_last_acquire;
  first_drop_timestamp =
      if is_none r.first_drop_timestamp then some now else r.first_drop_timestamp;
  last_drop_timestamp = some now;
}

-- At the time `now`; the new state and the result.
unfoldable pub try_acquire : ℕ → RateLimiter → RateLimiter × Bool
try_acquire now r =
    let recent = keep_if (is_recent r.window_ms now) r.timestamps in
    if ltb (length recent) r.max_captures
    then (record r { timestamps = recent ++ now ∷ [] }, true)
    else (drop_capture now (record r { timestamps = recent }), false)

unfoldable pub get_and_reset_drop_summary :
    RateLimiter → RateLimiter × Option RateLimiterDropSummary
get_and_reset_drop_summary r = if r.dropped_since_last_acquire == 0 then (r, none) else (
  record r {
    dropped_since_last_acquire = 0;
    first_drop_timestamp = none;
    last_drop_timestamp = none;
  },
  some (record {
    dropped_count = r.dropped_since_last_acquire;
    first_drop_ms = r.first_drop_timestamp;
    last_drop_ms = r.last_drop_timestamp;
  }),
)

abbrev pub get_dropped_count : RateLimiter → ℕ
get_dropped_count r = r.dropped_count

unfoldable pub reset : RateLimiter → RateLimiter
reset r = record r {
  timestamps = [];
  dropped_count = 0;
  dropped_since_last_acquire = 0;
  first_drop_timestamp = none;
  last_drop_timestamp = none;
}
