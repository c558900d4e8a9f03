-- ===== src/RateLimiter/Window.antt =====
-- How many requests a window lets through.
use deko.Prelude.{
  ℕ, suc, ◌+◌, ◌-◌, ◌≡◌, ◌≤◌, refl, sym, ◌⊎◌, inl, inr, leb, min, String, true, false, Option, none,
  some, unwrap_or, List, [], ◌∷◌, All, arith, ◌==◌, string_eq, ==_sound, if◌then◌else◌, Bool-cases,
}
use mathlib.Core.Path.{subst}
use deko.RateLimiter.{
  RateLimitState, RateLimiter, State, window, fresh, reset, admit, store, is_allowed,
}

-- How many of the requests, each a time and a key, are of the key.
abbrev pub requests_of : String → List (ℕ × String) → ℕ
requests_of k [] = 0
requests_of k ((now, key) ∷ rs) = (if key == k then 1 else 0) + requests_of k rs

-- How many of the requests of the key are let through, one after the other.
unfoldable pub allowed_of : RateLimiter → String → List (ℕ × String) → State → ℕ
allowed_of limiter k [] map = 0
allowed_of limiter k ((now, key) ∷ rs) map =
    let (allowed, next) = is_allowed limiter now key map in
    (if key == k then (if allowed then 1 else 0) else 0) + allowed_of limiter k rs next

next_of : (m c n : ℕ) → suc c ≤ m → 1 + min (m - suc c) n ≡ min (m - c) (1 + n)
next_of m c n h = ground arith

full_of : (m c n : ℕ) → c ≡ m → 0 + min (m - c) n ≡ min (m - c) (1 + n)
full_of m c n h = ground arith

module _ (limiter : RateLimiter) (k : String) (t : ℕ) where
  abbrev pub InWindow : ℕ × String → Type 0
  InWindow (now, key) = (t ≤ now) × (now ≤ t + window limiter)

  -- `c` requests of the key have been let through since `t`.
  abbrev Counted : ℕ → Option RateLimitState → Type 0
  Counted c none = c ≡ 0
  Counted c (some entry) = (entry.count ≡ c) × (t ≤ entry.window_start)

  reset-InWindow :
      (now : ℕ) (entry : RateLimitState)
      → now ≤ t + window limiter
      → t ≤ entry.window_start
      → reset limiter now entry ≡ entry
  unfolding reset
  reset-InWindow now entry h i = ground arith

  current :
      (now c : ℕ) (o : Option RateLimitState)
      → InWindow (now, k)
      → Counted c o
      → Counted c (some (reset limiter now (unwrap_or o (fresh now))))
  current now c none (h, i) e = rw (reset-InWindow now (fresh now) i h) (sym e, h)
  current now c (some entry) (h, i) (e, j) = rw (reset-InWindow now entry i j) (e, j)

  admitted :
      (c : ℕ) (entry : RateLimitState)
      → Counted c (some entry)
      → c ≤ limiter.max_requests
      → let (allowed, next) = admit limiter entry in
        ((allowed ≡ true) × (suc c ≤ limiter.max_requests) × Counted (suc c) (some next))
        ⊎ ((allowed ≡ false) × (c ≡ limiter.max_requests) × Counted c (some next))
  unfolding admit
  admitted c entry (e, h) i = elim (Bool-cases (leb limiter.max_requests entry.count)) [
    | inl full ↦ rw full (inr (refl, ground (arith, e, i, full), (e, h)))
    | inr free ↦ rw free (inl (refl, ground (arith, e, i, free), (omega (arith, e), h)))
  ]

  stored :
      (c : ℕ) (key : String) (entry : RateLimitState) (map : State)
      → (key == k) ≡ true
      → Counted c (some entry)
      → Counted c (store key entry map k)
  stored c key entry map same st = rw same st

  not_stored :
      (c : ℕ) (key : String) (entry : RateLimitState) (map : State)
      → (key == k) ≡ false
      → Counted c (map k)
      → Counted c (store key entry map k)
  not_stored c key entry map other h = rw other h

  counted :
      (c : ℕ) (rs : List (ℕ × String)) (map : State)
      → c ≤ limiter.max_requests
      → Counted c (map k)
      → All InWindow rs
      → allowed_of limiter k rs map ≡ min (limiter.max_requests - c) (requests_of k rs)
  unfolding allowed_of is_allowed
  counted c [] map i h ins = ground arith
  counted c ((now, key) ∷ rs) map i h (a, ins) = elim (Bool-cases (key == k)) [
    | inl same ↦
        let entry = reset limiter now (unwrap_or (map key) (fresh now)) in
        let known = subst (λ j. Counted c (map j)) (sym (==_sound key k same)) h in
        elim (admitted c entry (current now c (map key) a known) i) [
          | inl (passed, lt, st) ↦
              rw
                (
                  same,
                  passed,
                  counted (suc c) rs (store key (admit limiter entry).1 map) lt
                      (stored (suc c) key (admit limiter entry).1 map same st) ins,
                )
                (next_of limiter.max_requests c (requests_of k rs) lt)
          | inr (refused, full, st) ↦
              rw
                (
                  same,
                  refused,
                  counted c rs (store key (admit limiter entry).1 map) i
                      (stored c key (admit limiter entry).1 map same st) ins,
                )
                (full_of limiter.max_requests c (requests_of k rs) full)
        ]
    | inr other ↦
        let entry = reset limiter now (unwrap_or (map key) (fresh now)) in
        rw
          (
            other,
            counted c rs (store key (admit limiter entry).1 map) i
                (not_stored c key (admit limiter entry).1 map other h) ins,
          )
          (omega arith)
  ]

-- If all times lie within one window, then of the requests of a key exactly the first `max_requests`
-- are let through, whatever the other keys send.
pub allowed_of-min :
    (limiter : RateLimiter) (k : String) (t : ℕ) (rs : List (ℕ × String))
    → All (InWindow limiter k t) rs
    → allowed_of limiter k rs (λ j. none) ≡ min limiter.max_requests (requests_of k rs)
allowed_of-min limiter k t rs ins =
    omega (arith, counted limiter k t 0 rs (λ j. none) (omega arith) refl ins)
