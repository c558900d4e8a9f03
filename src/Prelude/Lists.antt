-- ===== src/Prelude/Lists.antt =====
-- Lists measured by native numbers, and predicates on them by recursion.
use Prim.Native.Nat.{ℕ, zero, suc, ◌+◌, min}
use deko.Prelude.Tests.{if◌then◌else◌, Bool-cases}
use mathlib.Core.Logic.{inl, inr}
use mathlib.Core.Path.{◌≡◌, refl}
use mathlib.Core.Bool.{Bool, true, false, cond, ◌&&◌, ◌||◌}
use mathlib.Core.List.{List, [], ◌∷◌, ◌++◌}
use mathlib.Core.Option.{Option, none, some}
use native.Mathlib.Omega.{arith}

module _ {ℓ} {A : Type ℓ} where
  abbrev pub length : List A → ℕ
  length [] = 0
  length (x ∷ xs) = suc (length xs)

  abbrev pub take : ℕ → List A → List A
  take zero xs = []
  take (suc n) [] = []
  take (suc n) (x ∷ xs) = x ∷ take n xs

  -- `iter().any` and `iter().all`
  abbrev pub any : (A → Bool) → List A → Bool
  any p [] = false
  any p (x ∷ xs) = p x || any p xs

  abbrev pub all : (A → Bool) → List A → Bool
  all p [] = true
  all p (x ∷ xs) = p x && all p xs

  -- `iter().find`
  abbrev pub find : (A → Bool) → List A → Option A
  find p [] = none
  find p (x ∷ xs) = cond (p x) (some x) (find p xs)

  -- `iter().filter`, and the rows that a WHERE clause keeps
  abbrev pub keep : (A → Bool) → List A → List A
  keep p [] = []
  keep p (x ∷ xs) = cond (p x) (x ∷ keep p xs) (keep p xs)

  abbrev pub count : (A → Bool) → List A → ℕ
  count p [] = 0
  count p (x ∷ xs) = cond (p x) (suc (count p xs)) (count p xs)

  -- A stable sort: `leb x y` says that `x` may stand before `y`.
  unfoldable pub insert_sorted : (A → A → Bool) → A → List A → List A
  insert_sorted leb x [] = x ∷ []
  insert_sorted leb x (y ∷ ys) = if leb x y then x ∷ y ∷ ys else y ∷ insert_sorted leb x ys

  unfoldable pub order_by : (A → A → Bool) → List A → List A
  unfolding insert_sorted
  order_by leb [] = []
  order_by leb (x ∷ xs) = insert_sorted leb x (order_by leb xs)

  -- The first element, and the values that are there.
  abbrev pub head_of : List A → Option A
  head_of [] = none
  head_of (x ∷ xs) = some x

  abbrev pub get_elem? : List A → ℕ → Option A
  get_elem? [] i = none
  get_elem? (x ∷ xs) zero = some x
  get_elem? (x ∷ xs) (suc i) = get_elem? xs i

  abbrev pub drop : ℕ → List A → List A
  drop zero xs = xs
  drop (suc n) [] = []
  drop (suc n) (x ∷ xs) = drop n xs

  abbrev pub present : List (Option A) → List A
  present [] = []
  present (none ∷ os) = present os
  present (some a ∷ os) = a ∷ present os

  pub length-append : (xs ys : List A) → length (xs ++ ys) ≡ length xs + length ys
  length-append [] ys = omega arith
  length-append (x ∷ xs) ys = omega (arith, length-append xs ys)

  pub length-take : (n : ℕ) (xs : List A) → length (take n xs) ≡ min n (length xs)
  length-take zero xs = omega arith
  length-take (suc n) [] = omega arith
  length-take (suc n) (x ∷ xs) = omega (arith, length-take n xs)

  pub find-snoc :
      (p : A → Bool) (xs : List A) (x : A)
      → find p xs ≡ none
      → p x ≡ true
      → find p (xs ++ (x ∷ [])) ≡ some x
  find-snoc p [] x e h = rw h refl
  find-snoc p (y ∷ ys) x e h = elim (Bool-cases (p y)) [
    | inl found ↦ absurd (ground (arith, found, e))
    | inr other ↦ rw other (find-snoc p ys x (rw other at e) h)
  ]

module _ {ℓ κ} {A : Type ℓ} (P : A → Type κ) where
  abbrev pub All : List A → Type κ
  All [] = Unit
  All (x ∷ xs) = P x × All xs

  pub All-append : (xs ys : List A) → All xs → All ys → All (xs ++ ys)
  All-append [] ys h k = k
  All-append (x ∷ xs) ys (p, h) k = (p, All-append xs ys h k)

  pub All-insert_sorted :
      (le : A → A → Bool) (x : A) (xs : List A) → P x → All xs → All (insert_sorted le x xs)
  unfolding insert_sorted
  All-insert_sorted le x [] p h = (p, tt)
  All-insert_sorted le x (y ∷ ys) p (q, h) = elim (Bool-cases (le x y)) [
    | inl before ↦ rw before (p, (q, h))
    | inr after ↦ rw (after, insert_sorted) (q, All-insert_sorted le x ys p h)
  ]

  pub All-order_by : (le : A → A → Bool) (xs : List A) → All xs → All (order_by le xs)
  unfolding order_by
  All-order_by le [] h = tt
  All-order_by le (x ∷ xs) (p, h) = All-insert_sorted le x (order_by le xs) p (All-order_by le xs h)

  pub All-take : (n : ℕ) (xs : List A) → All xs → All (take n xs)
  All-take zero xs h = tt
  All-take (suc n) [] h = tt
  All-take (suc n) (x ∷ xs) (p, h) = (p, All-take n xs h)
