-- ===== src/Examples/Policy.antt =====
-- The policy engine on concrete rules.
use deko.Prelude.{
  arith, ◌==◌, ==_differ, all, not, ◌≡◌, ◌≢◌, refl, true, none, some, List, [], ◌∷◌, map, All,
  ◌>>=◌, string_eq, ℕ, String,
}
use deko.Json.{
  from_list, Value, text, number, arr, obj, nil, cons, Fields, end, field, get_field, as_array,
}
use deko.PolicyEngine.Rules.{RuleInput, Now, RuleOutcome, eval_deny_keyword, evaluate_simple}
use deko.PolicyEngine.Evaluate.{evaluate_rule, merge_outcomes}
use deko.PolicyEngine.Composite.{combine, evaluate_rule-composite}
use deko.PolicyEngine.Severity.{IsPartOf, Yields, evaluate_rule-and_parts}
use deko.PolicyEngine.Matching.{known_types}
use deko.Models.{critical}
use deko.Examples.{test_platform}

abbrev pub keyword_rule : String → ℕ → Value ℕ
keyword_rule kw n = obj (
    field "type" (text "deny_keyword")
      (field "keywords" (arr (cons (text kw) nil)) (field "priority" (number n) end)))

abbrev url_rule : Value ℕ
url_rule = obj (field "patterns" (arr (cons (text "example.org") nil)) end)

abbrev transfer : RuleInput
transfer = record {
  intent = "transfer money";
  payload = none;
  target_url = some "https://example.org/pay";
  target_method = none;
  metadata = none;
}

abbrev pub monday : Now
monday = record { hour = 9; weekday = 0 }

abbrev two_rules : List (Value ℕ)
two_rules = keyword_rule "money" 2 ∷ keyword_rule "transfer" 1 ∷ []

abbrev and_fields : Fields ℕ
and_fields =
    field "type" (text "and") (
      field "rules" (arr (cons (keyword_rule "money" 2) (cons (keyword_rule "transfer" 1) nil)))
        end)

evaluate_rule-composite_example : evaluate_rule test_platform transfer monday (obj and_fields) ≡ (do
  v ← get_field "rules" and_fields
  xs ← as_array v
  combine true (map (evaluate_rule test_platform transfer monday) xs))
unfolding string_eq
evaluate_rule-composite_example =
    evaluate_rule-composite test_platform transfer monday true and_fields refl

abbrev both : RuleOutcome
both = record {
  immediate_deny = true;
  message = "Denied keyword match: money; Denied keyword match: transfer";
  risk_level = critical;
}

evaluate_rule-and_parts_example :
    All
      (Yields (evaluate_rule test_platform transfer monday) (IsPartOf both))
      (keyword_rule "money" 2 ∷ keyword_rule "transfer" 1 ∷ [])
unfolding string_eq evaluate_rule evaluate_simple eval_deny_keyword merge_outcomes
evaluate_rule-and_parts_example =
    evaluate_rule-and_parts test_platform transfer monday and_fields
      (cons (keyword_rule "money" 2) (cons (keyword_rule "transfer" 1) nil)) both refl refl refl

abbrev typo_fields : Fields ℕ
typo_fields = field "type" (text "deny_keywords") end

type_of_typo : get_field "type" typo_fields ≡ some (text "deny_keywords")
unfolding string_eq
type_of_typo = refl

pub All-differ :
    (s : String) (ks : List String) → all (λ k. not (s == k)) ks ≡ true → All (λ k. s ≢ k) ks
All-differ s [] h = tt
All-differ s (k ∷ ks) h = (==_differ s k (ground arith), All-differ s ks (ground arith))

typo_differs : All (λ k. ◌≢◌ {A = String} "deny_keywords" k) known_types
unfolding string_eq
typo_differs = All-differ "deny_keywords" known_types refl

-- Monday to Friday as the rule counts days, from 8 to 18; 2024-01-01 is a Monday.
abbrev office_hours : Fields ℕ
office_hours = field "start_hour_utc" (number 8) (
    field "end_hour_utc" (number 18)
      (field "days" (arr (from_list (map number (0 ∷ 1 ∷ 2 ∷ 3 ∷ 4 ∷ [])))) end))
