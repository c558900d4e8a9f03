-- ===== src/RateLimiter.antt =====
-- services/metrics.rs: the rate limiter, a window for each key. An `Instant` is its number of
-- nanoseconds, and `duration_since` is zero where the time runs backwards.
pub mod Window
pub mod Cleanup
use deko.Prelude.{
  ℕ, ◌+◌, ◌-◌, ◌*◌, ltb, leb, String, Bool, true, false, Option, none, some, unwrap_or, ◌==◌,
  string_eq, if◌then◌else◌,
}

pub record RateLimitState : Type 0 where
  pub count : ℕ
  pub window_start : ℕ

pub record RateLimiter : Type 0 where
  pub max_requests : ℕ
  pub window_secs : ℕ

-- The map behind the lock.
abbrev pub State : Type 0
State = String → Option RateLimitState

abbrev pub window : RateLimiter → ℕ
window limiter = limiter.window_secs * 1000000000

abbrev pub fresh : ℕ → RateLimitState
fresh now = record { count = 0; window_start = now }

-- The entry, reset if its window is over.
unfoldable pub reset : RateLimiter → ℕ → RateLimitState → RateLimitState
reset limiter now entry =
    if ltb (window limiter) (now - entry.window_start) then fresh now else entry

unfoldable pub admit : RateLimiter → RateLimitState → Bool × RateLimitState
admit limiter entry =
    if leb limiter.max_requests entry.count
    then (false, entry)
    else (true, record entry { count = entry.count + 1 })

abbrev pub store : String → RateLimitState → State → State
store key entry map = λ j. if key == j then some entry else map j

unfoldable pub is_allowed : RateLimiter → ℕ → String → State → Bool × State
unfolding reset admit
is_allowed limiter now key map =
    let (allowed, entry) = admit limiter (reset limiter now (unwrap_or (map key) (fresh now))) in
    (allowed, store key entry map)

abbrev pub retained : RateLimiter → ℕ → Option RateLimitState → Option RateLimitState
retained limiter now none = none
retained limiter now (some entry) =
    if ltb (now - entry.window_start) (window limiter) then some entry else none

-- `retain`, the body of the loop of `start_cleanup_task`
unfoldable pub cleanup : RateLimiter → ℕ → State → State
cleanup limiter now map = λ j. retained limiter now (map j)
