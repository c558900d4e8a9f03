-- ===== src/RateLimiter/Cleanup.antt =====
-- Requests after a cleanup.
use deko.Prelude.{
  ℕ, ◌+◌, ◌-◌, ◌≡◌, ◌≤◌, refl, ltb, String, Option, none, some, unwrap_or, arith, ==_refl,
  string_eq, Bool-cases, inl, inr,
}
use deko.RateLimiter.{
  RateLimitState, RateLimiter, State, window, fresh, reset, is_allowed, retained, cleanup,
}

-- An entry that the cleanup removes would be reset.
same_entry :
    (limiter : RateLimiter) (earlier now : ℕ) (o : Option RateLimitState)
    → 1 ≤ limiter.window_secs
    → earlier + 1 ≤ now
    → reset limiter now (unwrap_or (retained limiter earlier o) (fresh now))
      ≡ reset limiter now (unwrap_or o (fresh now))
unfolding reset
same_entry limiter earlier now none h i = refl
same_entry limiter earlier now (some entry) h i =
    elim (Bool-cases (ltb (earlier - entry.window_start) (window limiter))) [
      | inl kept ↦ rw kept refl
      | inr removed ↦ elim (Bool-cases (ltb (window limiter) (now - entry.window_start))) [
        | inl over ↦ rw (removed, over) (ground arith)
        | inr under ↦ ground (arith, removed, under, h, i)
      ]
    ]

-- A cleanup changes neither the answer to a later request nor what is then stored for its key, if
-- the window is not of length zero.
pub is_allowed-cleanup :
    (limiter : RateLimiter) (earlier now : ℕ) (key : String) (map : State)
    → 1 ≤ limiter.window_secs
    → earlier + 1 ≤ now
    → let (allowed, next) = is_allowed limiter now key (cleanup limiter earlier map) in
      let (allowed_without, next_without) = is_allowed limiter now key map in
      (allowed ≡ allowed_without) × (next key ≡ next_without key)
unfolding is_allowed cleanup
is_allowed-cleanup limiter earlier now key map h i =
    rw (==_refl key, same_entry limiter earlier now (map key) h i) (refl, refl)
