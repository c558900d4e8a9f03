-- ===== src/PolicyEngine/Evaluate.antt =====
-- services/policy_engine.rs: `evaluate_rule`, `evaluate_composite` and `merge_outcomes`. A rule is
-- evaluated along its JSON: `composite_field` is `rule.get("rules")?`, `composite_array` is
-- `.as_array()?`, and `composite_loop` is the loop over the sub-rules.
use deko.Prelude.{
  ℕ, Bool, true, false, Option, none, some, List, [], ◌∷◌, ◌++◌, map, any, leb, ◌>>=◌, ◌==◌,
  string_eq, if◌then◌else◌,
}
use deko.Prelude.Text.{join}
use deko.Json.{
  Value, null, bool, number, text, arr, obj, Items, nil, cons, Fields, end, field, get_field,
  as_str,
}
use deko.Models.{RiskLevel, low, medium, high, critical}
use deko.Platform.{Platform}
use deko.PolicyEngine.Rules.{RuleInput, Now, RuleOutcome, evaluate_simple}

-- The key of `max_by_key`.
abbrev pub rank : RiskLevel → ℕ
rank critical = 3
rank high = 2
rank medium = 1
rank low = 0

-- `Iterator::max_by_key`: the last of the greatest.
unfoldable pub max_risk : RiskLevel → List RuleOutcome → RiskLevel
max_risk best [] = best
max_risk best (r ∷ rs) =
    max_risk (if leb (rank best) (rank r.risk_level) then r.risk_level else best) rs

unfoldable pub merge_outcomes : List RuleOutcome → Option RuleOutcome
unfolding max_risk join
merge_outcomes [] = none
merge_outcomes (r ∷ rs) =
    let results = r ∷ rs in
    some (record {
      immediate_deny = any (λ x. x.immediate_deny) results;
      message = join "; " (map (λ x. x.message) results);
      risk_level = max_risk r.risk_level rs;
    })

module _ (P : Platform) (input : RuleInput) (now : Now) where
  open P use {Number}

  unfoldable mutual
    pub evaluate_rule : Value Number → Option RuleOutcome
    evaluate_rule (obj fs) =
        let composite = λ (is_and : Bool). composite_field is_and fs in
        elim (get_field "type" fs >>= as_str) [
          | none ↦ none
          | some t ↦
              if t == "and"
              then composite true
              else if t == "or"
              then composite false
              else evaluate_simple P (obj fs) input now t
        ]
    evaluate_rule null = none
    evaluate_rule (bool b) = none
    evaluate_rule (number n) = none
    evaluate_rule (text s) = none
    evaluate_rule (arr xs) = none

    pub composite_field : Bool → Fields Number → Option RuleOutcome
    composite_field is_and end = none
    composite_field is_and (field k v fs) =
        if k == "rules" then composite_array is_and v else composite_field is_and fs

    pub composite_array : Bool → Value Number → Option RuleOutcome
    composite_array is_and (arr xs) = composite_loop is_and xs []
    composite_array is_and null = none
    composite_array is_and (bool b) = none
    composite_array is_and (number n) = none
    composite_array is_and (text s) = none
    composite_array is_and (obj fs) = none

    pub composite_loop : Bool → Items Number → List RuleOutcome → Option RuleOutcome
    composite_loop is_and nil collected = if is_and then merge_outcomes collected else none
    composite_loop is_and (cons sub rest) collected = elim (evaluate_rule sub) [
      | none ↦ if is_and then none else composite_loop is_and rest collected
      | some result ↦
          if is_and then composite_loop is_and rest (collected ++ (result ∷ [])) else some result
    ]
