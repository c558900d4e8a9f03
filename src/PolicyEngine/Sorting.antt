-- ===== src/PolicyEngine/Sorting.antt =====
-- `sort_rules` of services/policy_engine.rs. `sort_by_key` is a stable sort: an insertion sort.
use deko.Prelude.{◌>>=◌, unwrap_or, List, [], ◌∷◌, if◌then◌else◌}
use deko.Prelude.Int.{ℤ, pos, leb_ℤ}
use deko.Json.{Value, get, as_number}
use deko.Platform.{Platform}

module _ {ℓ} {A : Type ℓ} (key : A → ℤ) where
  unfoldable pub insert_by_key : A → List A → List A
  insert_by_key x [] = x ∷ []
  insert_by_key x (y ∷ ys) = if leb_ℤ (key x) (key y) then x ∷ y ∷ ys else y ∷ insert_by_key x ys

  -- `slice::sort_by_key`
  unfoldable pub sort_by_key : List A → List A
  unfolding insert_by_key
  sort_by_key [] = []
  sort_by_key (x ∷ xs) = insert_by_key x (sort_by_key xs)

module _ (P : Platform) where
  open P use {Number, as_i64}

  -- The optional `priority` of a rule, 0 if it is missing or no integer.
  unfoldable pub priority : Value Number → ℤ
  priority r = unwrap_or (do v ← get "priority" r; n ← as_number v; as_i64 n) (pos 0)

  unfoldable pub sort_rules : List (Value Number) → List (Value Number)
  unfolding sort_by_key priority
  sort_rules rules = sort_by_key priority rules
