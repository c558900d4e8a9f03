-- ===== src/PolicyEngine/Composite.antt =====
-- What `and` and `or` rules decide, against a description by the outcomes of their sub-rules.
use deko.Prelude.{
  ◌≡◌, refl, ap, ◌∙◌, inl, inr, String, Bool, true, false, Option, none, some, List, [], ◌∷◌, ◌++◌,
  map, arith, ◌>>=◌, Option-cases, string_eq, if◌then◌else◌,
}
use mathlib.Core.Path.{fun_ext}
use mathlib.Core.List.{append-nil, append_assoc}
use deko.Json.{
  Value, null, bool, number, text, arr, obj, Items, nil, cons, Fields, end, field, to_list,
  get_field, as_array,
}
use deko.Platform.{Platform}
use deko.PolicyEngine.Rules.{RuleInput, Now, RuleOutcome}
use deko.PolicyEngine.Evaluate.{
  merge_outcomes, evaluate_rule, composite_field, composite_array, composite_loop,
}

module _ {ℓ} {A : Type ℓ} where
  -- All the values, if none is missing.
  abbrev pub all_some : List (Option A) → Option (List A)
  all_some [] = some []
  all_some (none ∷ os) = none
  all_some (some a ∷ os) = do rest ← all_some os; some (a ∷ rest)

  abbrev pub first_some : List (Option A) → Option A
  first_some [] = none
  first_some (none ∷ os) = first_some os
  first_some (some a ∷ os) = some a

-- The operator of a composite rule.
abbrev pub operator : Bool → String
operator true = "and"
operator false = "or"

-- `and` merges the outcomes if every sub-rule matches; `or` takes the first match.
abbrev pub combine : Bool → List (Option RuleOutcome) → Option RuleOutcome
combine true os = all_some os >>= merge_outcomes
combine false os = first_some os

module _ (P : Platform) (input : RuleInput) (now : Now) where
  open P use {Number}

  abbrev outcomes : Items Number → List (Option RuleOutcome)
  outcomes xs = map (evaluate_rule P input now) (to_list xs)

  abbrev loop_step :
      Bool → Items Number → List RuleOutcome → Option RuleOutcome → Option RuleOutcome
  loop_step is_and rest acc none =
      if is_and then none else composite_loop P input now is_and rest acc
  loop_step is_and rest acc (some r) =
      if is_and then composite_loop P input now is_and rest (acc ++ (r ∷ [])) else some r

  -- One round of the loop.
  composite_loop-cons :
      (is_and : Bool) (sub : Value Number) (rest : Items Number) (acc : List RuleOutcome)
      → composite_loop P input now is_and (cons sub rest) acc
        ≡ loop_step is_and rest acc (evaluate_rule P input now sub)
  unfolding evaluate_rule
  composite_loop-cons is_and sub rest acc = elim (Option-cases (evaluate_rule P input now sub)) [
    | inl missed ↦ rw (missed, composite_loop)
    | inr (r, found) ↦ rw (found, composite_loop)
  ]

  composite_loop-nil :
      (is_and : Bool) (acc : List RuleOutcome)
      → composite_loop P input now is_and nil acc ≡ (if is_and then merge_outcomes acc else none)
  unfolding evaluate_rule
  composite_loop-nil is_and acc = refl

  merge_later :
      (acc : List RuleOutcome) (r : RuleOutcome) (found : Option (List RuleOutcome))
      → (found >>= λ rs. merge_outcomes ((acc ++ (r ∷ [])) ++ rs))
        ≡ ((found >>= λ rs. some (r ∷ rs)) >>= λ rs. merge_outcomes (acc ++ rs))
  merge_later acc r none = refl
  merge_later acc r (some rs) = rw append_assoc

  and_loop :
      (xs : Items Number) (acc : List RuleOutcome)
      → composite_loop P input now true xs acc
        ≡ (all_some (outcomes xs) >>= λ rs. merge_outcomes (acc ++ rs))
  and_loop nil acc = composite_loop-nil true acc ∙ (rw append-nil)
  and_loop (cons sub rest) acc = elim (Option-cases (evaluate_rule P input now sub)) [
    | inl missed ↦ rw (composite_loop-cons, missed)
    | inr (r, found) ↦
        rw (composite_loop-cons, found)
          (and_loop rest (acc ++ (r ∷ [])) ∙ merge_later acc r (all_some (outcomes rest)))
  ]

  or_loop :
      (xs : Items Number) (acc : List RuleOutcome)
      → composite_loop P input now false xs acc ≡ first_some (outcomes xs)
  or_loop nil acc = composite_loop-nil false acc
  or_loop (cons sub rest) acc = elim (Option-cases (evaluate_rule P input now sub)) [
    | inl missed ↦ rw (composite_loop-cons, missed) (or_loop rest acc)
    | inr (r, found) ↦ rw (composite_loop-cons, found)
  ]

  composite_field_lem :
      (is_and : Bool) (fs : Fields Number)
      → composite_field P input now is_and fs
        ≡ (do v ← get_field "rules" fs; composite_array P input now is_and v)
  unfolding evaluate_rule
  composite_field_lem is_and end = refl
  composite_field_lem is_and (field k v fs) = ground (arith, composite_field_lem is_and fs)

  composite_array_lem :
      (is_and : Bool) (v : Value Number)
      → composite_array P input now is_and v
        ≡ (do xs ← as_array v; combine is_and (map (evaluate_rule P input now) xs))
  unfolding evaluate_rule
  composite_array_lem true (arr xs) = and_loop xs []
  composite_array_lem false (arr xs) = or_loop xs []
  composite_array_lem is_and null = refl
  composite_array_lem is_and (bool b) = refl
  composite_array_lem is_and (number n) = refl
  composite_array_lem is_and (text s) = refl
  composite_array_lem is_and (obj fs) = refl

  evaluate_rule-obj :
      (is_and : Bool) (fs : Fields Number)
      → get_field "type" fs ≡ some (text (operator is_and))
      → evaluate_rule P input now (obj fs) ≡ composite_field P input now is_and fs
  unfolding evaluate_rule string_eq
  evaluate_rule-obj true fs h = rw (h, evaluate_rule)
  evaluate_rule-obj false fs h = rw (h, evaluate_rule)

-- An `and` rule whose `rules` is an array matches exactly if every sub-rule does and there is one,
-- with the merged outcomes; an `or` rule has the outcome of its first matching sub-rule; without
-- such an array neither matches.
pub evaluate_rule-composite :
    (P : Platform) (input : RuleInput) (now : Now) (is_and : Bool) (fs : Fields P.Number)
    → get_field "type" fs ≡ some (text (operator is_and))
    → evaluate_rule P input now (obj fs) ≡ (do
      v ← get_field "rules" fs
      xs ← as_array v
      combine is_and (map (evaluate_rule P input now) xs))
evaluate_rule-composite P input now is_and fs h =
    evaluate_rule-obj P input now is_and fs h
    ∙ (composite_field_lem P input now is_and fs
        ∙ ap (λ k. get_field "rules" fs >>= k) (fun_ext (composite_array_lem P input now is_and)))
