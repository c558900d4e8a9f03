-- ===== src/Processor/Batch.antt =====
-- Which actions a batch takes.
use deko.Prelude.{
  ℕ, ◌≡◌, ◌≤◌, String, true, List, [], ◌∷◌, keep, length, length-take, order_by, All, All-order_by,
  All-take, arith, Bool-cases, inl, inr,
}
use deko.Models.{Action}
use deko.Processor.{is_due, sooner, due_actions}

All-is_due :
    (now : String) (xs : List Action) → All (λ a. is_due now a ≡ true) (keep (is_due now) xs)
All-is_due now [] = tt
All-is_due now (x ∷ xs) = elim (Bool-cases (is_due now x)) [
  | inl due ↦ rw due (due, All-is_due now xs)
  | inr later ↦ rw later (All-is_due now xs)
]

-- A batch holds at most as many actions as its size, and each is pending and due.
pub due_actions-All :
    (batch_size : ℕ) (now : String) (actions : List Action)
    → (length (due_actions batch_size now actions) ≤ batch_size)
      × All (λ a. is_due now a ≡ true) (due_actions batch_size now actions)
unfolding due_actions
due_actions-All batch_size now actions = (
  omega (arith, length-take {0} batch_size (order_by sooner (keep (is_due now) actions))),
  All-take _ batch_size _ (All-order_by _ sooner _ (All-is_due now actions)),
)
