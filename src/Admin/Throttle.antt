-- ===== src/Admin/Throttle.antt =====
-- How many logins a window lets through.
use deko.Prelude.{
  ℕ, suc, ◌+◌, ◌-◌, ◌≡◌, sym, ◌⊎◌, ◌≤◌, ◌<◌, refl, leb, ltb, String, true, false, List, [], ◌∷◌,
  ◌++◌, count, length, All, arith, ◌==◌, string_eq, ==_sound, if◌then◌else◌, Bool-cases, inl, inr,
}
use mathlib.Core.Path.{subst}
use deko.Admin.Login.{LoginThrottle, Attempts, recent, allow}

-- How many of the attempts, each a time and an address, are let through for the address.
unfoldable pub admitted_of : LoginThrottle → String → List (ℕ × String) → Attempts → ℕ
unfolding allow
admitted_of throttle k [] map = 0
admitted_of throttle k ((now, ip) ∷ rs) map =
    let (allowed, next) = allow throttle now ip map in
    (if ip == k then (if allowed then 1 else 0) else 0) + admitted_of throttle k rs next

module _ (throttle : LoginThrottle) (k : String) (t : ℕ) where
  -- Less than a window after `t`.
  abbrev pub IsWithin : ℕ × String → Type 0
  IsWithin (now, ip) = (t ≤ now) × (now < t + throttle.window)

  -- How many of the times are at `t` or later.
  abbrev since : List ℕ → ℕ
  since times = count (λ x. leb t x) times

  since-recent :
      (now : ℕ) (times : List ℕ)
      → IsWithin (now, k)
      → since (recent throttle now times) ≡ since times
  since-recent now [] h = refl
  since-recent now (x ∷ times) (h, i) = elim (Bool-cases (ltb (now - x) throttle.window)) [
    | inl kept ↦ rw kept (ground (arith, since-recent now times (h, i)))
    | inr gone ↦ rw gone (
        let later = since-recent now times (h, i) in
        let before : leb t x ≡ false = ground (arith, gone, h, i) in rw before later)
  ]

  since_le : (times : List ℕ) → since times ≤ length times
  since_le [] = omega arith
  since_le (x ∷ times) = ground (arith, since_le times)

  since_snoc :
      (now : ℕ) (times : List ℕ) → t ≤ now → since (times ++ (now ∷ [])) ≡ suc (since times)
  since_snoc now [] h = ground arith
  since_snoc now (x ∷ times) h = ground (arith, since_snoc now times h)

  -- A login of the address, which `c` of the times at `t` or later stand for.
  own :
      (c now : ℕ) (ip : String) (map : Attempts)
      → (ip == k) ≡ true
      → c ≤ since (map ip)
      → IsWithin (now, k)
      → let (allowed, next) = allow throttle now ip map in
        ((allowed ≡ true) × (suc c ≤ throttle.max_attempts) × (suc c ≤ since (next k)))
        ⊎ ((allowed ≡ false) × (c ≤ since (next k)))
  unfolding allow
  own c now ip map same h within =
      let times = recent throttle now (map ip) in
      elim (Bool-cases (leb throttle.max_attempts (length times))) [
        | inl full ↦
            inr (rw full refl, rw (full, same) (omega (arith, h, since-recent now (map ip) within)))
        | inr free ↦
            let below : length times < throttle.max_attempts = ground (arith, free) in
            let enough : c ≤ since times = omega (arith, h, since-recent now (map ip) within) in
            inl (
              rw free refl,
              omega (arith, below, enough, since_le times),
              rw (free, same) (omega (arith, enough, since_snoc now times within.0)),
            )
      ]

  other :
      (now : ℕ) (ip : String) (map : Attempts)
      → (ip == k) ≡ false
      → (allow throttle now ip map).1 k ≡ map k
  unfolding allow
  other now ip map differ =
      elim (Bool-cases (leb throttle.max_attempts (length (recent throttle now (map ip))))) [
        | inl full ↦ rw (full, differ) refl
        | inr free ↦ rw (free, differ) refl
      ]

  -- `c` logins have been let through since `t`.
  admitted :
      (c : ℕ) (rs : List (ℕ × String)) (map : Attempts)
      → c ≤ since (map k)
      → c ≤ throttle.max_attempts
      → All IsWithin rs
      → c + admitted_of throttle k rs map ≤ throttle.max_attempts
  unfolding admitted_of
  admitted c [] map h i ins = omega (arith, i)
  admitted c ((now, ip) ∷ rs) map h i (a, ins) = elim (Bool-cases (ip == k)) [
    | inl same ↦
        elim (own c now ip map same (subst (λ j. c ≤ since (map j)) (sym (==_sound ip k same)) h)
          a) [
            | inl (passed, lt, st) ↦
                rw (same, passed)
                  (omega (arith, admitted (suc c) rs (allow throttle now ip map).1 st lt ins))
            | inr (refused, st) ↦
                rw (same, refused)
                  (omega (arith, admitted c rs (allow throttle now ip map).1 st i ins))
          ]
    | inr differ ↦
        let st = subst (λ l. c ≤ since l) (sym (other now ip map differ)) h in
        rw differ (omega (arith, admitted c rs (allow throttle now ip map).1 st i ins))
  ]

-- Whatever was tried before, of the logins that are tried from one address in less than a window
-- after a time, at most `max_attempts` are let through, whatever comes from other addresses.
pub admitted_of-bound :
    (throttle : LoginThrottle) (k : String) (t : ℕ) (rs : List (ℕ × String)) (map : Attempts)
    → All (IsWithin throttle k t) rs
    → admitted_of throttle k rs map ≤ throttle.max_attempts
admitted_of-bound throttle k t rs map ins =
    omega (arith, admitted throttle k t 0 rs map (omega arith) (omega arith) ins)
