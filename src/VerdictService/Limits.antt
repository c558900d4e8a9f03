-- ===== src/VerdictService/Limits.antt =====
-- services/verdict.rs: the second loop of `evaluate_policies`, over the rules that count rows of
-- the agent: rate_limit, concurrency_limit, histogram_trend and budget_limit. A count that fails is
-- passed over. The rules are in the order in which the policy declares them.
use deko.Prelude.{
  ℕ, String, ◌<>◌, Bool, true, false, not, ◌&&◌, Option, none, some, List, [], ◌∷◌, map, keep,
  length, present, ◌==◌, string_eq, if◌then◌else◌, unwrap_or, ltb,
}
use deko.Prelude.Int.{pos, leb_ℤ, ◌-ℤ◌}
use deko.Prelude.Text.{ltb_text, show_int, show_nat}
use deko.Json.{Value, text_at, as_array}
use deko.Models.{Action, Policy, RiskLevel, medium, high, show_status}
use deko.Platform.{Platform}
use deko.PolicyEngine.Rules.{integer, real}
use deko.World.{M, pure, select, attempt, gets, for_some, or_try, ◌>>=◌}
use deko.VerdictService.{Service, PolicyEvaluation}

-- `status = 's'` on the stored text.
abbrev pub has_status : String → Action → Bool
has_status s a = show_status a.status == s

unfoldable pub recent_actions : String → String → List Action → ℕ
unfolding show_status
recent_actions agent_id cutoff actions = length (
    keep
      (λ a. a.agent_id == agent_id && ltb_text cutoff a.created_at && not (has_status "pending" a))
      actions)

unfoldable pub processing_actions : String → List Action → ℕ
unfolding show_status
processing_actions agent_id actions =
    length (keep (λ a. a.agent_id == agent_id && has_status "processing" a) actions)

-- The payloads of the agent's rows that are not in the status `s`.
unfoldable pub payloads_except : String → String → List Action → List String
unfolding show_status
payloads_except s agent_id actions =
    present
      (map (λ a. a.payload) (keep (λ a. a.agent_id == agent_id && not (has_status s a)) actions))

-- `if let Ok((count,)) = …`
abbrev and_then {ℓ} : {A B : Type ℓ} → Option A → (A → Option B) → Option B
and_then none f = none
and_then (some a) f = f a

module _ (P : Platform) (svc : Service P.F64) (action : Action) (context : String) where
  open P use {
    Number, F64, as_f64, from_str, gt_f64, ge_f64, sub_f64, mul_f64, div_f64, sqrt_f64, abs_f64,
    nat_f64, f64_lit, show_fixed, json_reals, sql_avg, sql_sum, rfc3339,
  }

  abbrev pub is_type : String → Value Number → Bool
  is_type t rule = elim (text_at "type" rule) [ none ↦ false | some s ↦ s == t ]

  -- A denial for the policy, unless this is a dry run.
  abbrev limit_when : Bool → Policy Number → RiskLevel → String → Option PolicyEvaluation
  limit_when exceeded policy level reason =
      if exceeded && not svc.is_dry_run
      then some (record {
        immediate_deny = true;
        reason = some reason;
        risk_level = some level;
        matched_policy_id = some policy.id;
        context = context;
      })
      else none

  unfoldable pub check_rate_limit :
      Policy Number → Value Number → M Number (Option PolicyEvaluation)
  unfolding recent_actions show_int show_nat
  check_rate_limit policy rule = do
    let max_count = unwrap_or (integer P "max_count" rule) (pos 10)
    let window_secs = unwrap_or (integer P "window_secs" rule) (pos 60)
    now ← gets (λ w. w.clock)
    counted ←
        attempt (
          select (λ t. recent_actions action.agent_id (rfc3339 (pos now -ℤ window_secs)) t.actions))
    pure (elim counted [
      | none ↦ none
      | some n ↦ limit_when (leb_ℤ max_count (pos n)) policy medium (
          "Rate limit: "
          <> (show_nat n
              <> (" actions in "
                  <> (show_int window_secs <> ("s (max " <> (show_int max_count <> ")"))))))
    ])

  abbrev pub concurrency_verdict : Policy Number → Value Number → ℕ → Option PolicyEvaluation
  concurrency_verdict policy rule n =
      let max_simultaneous = unwrap_or (integer P "max_simultaneous" rule) (pos 1) in
      limit_when (leb_ℤ max_simultaneous (pos n)) policy medium (
        "Concurrency limit: "
        <> (show_nat n <> (" simultaneous actions (max " <> (show_int max_simultaneous <> ")"))))

  unfoldable pub check_concurrency_limit :
      Policy Number → Value Number → M Number (Option PolicyEvaluation)
  unfolding processing_actions show_int show_nat
  check_concurrency_limit policy rule = do
    counted ← attempt (select (λ t. processing_actions action.agent_id t.actions))
    pure (and_then counted (concurrency_verdict policy rule))

  -- `payload_json.get(field).and_then(as_f64)`, none as well if there is no payload that parses
  abbrev current_value : String → Option F64
  current_value name = elim action.payload [
    | none ↦ none
    | some s ↦ elim (from_str s) [ none ↦ none | some v ↦ real P name v ]
  ]

  -- The test on the rows' mean, number and sum of squares.
  unfoldable pub anomaly :
      Policy Number → String → F64 → F64 → Option F64 → ℕ → Option F64 → Option PolicyEvaluation
  unfolding show_nat
  anomaly policy name val threshold none n sum_sq = none
  anomaly policy name val threshold (some avg) n none = none
  anomaly policy name val threshold (some avg) n (some sum_sq) =
      let variance = sub_f64 (div_f64 sum_sq (nat_f64 n)) (mul_f64 avg avg) in
      let stddev = sqrt_f64 variance in
      let deviation = div_f64 (abs_f64 (sub_f64 val avg)) stddev in
      limit_when (ltb 5 n && gt_f64 stddev (f64_lit "0.0") && gt_f64 deviation threshold) policy
        high
        ("Histogram anomaly: "
          <> (name
              <> (" = "
                  <> (show_fixed 2 val
                      <> (" deviates "
                          <> (show_fixed 1 deviation
                              <> ("σ from mean "
                                  <> (show_fixed 2 avg
                                      <> (" (threshold: "
                                          <> (show_fixed 0 threshold <> "σ)"))))))))))

  abbrev trend_of :
      Policy Number → String → F64 → F64 → Option (Option (List F64)) → Option PolicyEvaluation
  trend_of policy name val threshold none = none
  trend_of policy name val threshold (some none) = none
  trend_of policy name val threshold (some (some xs)) =
      anomaly policy name val threshold (sql_avg xs) (length xs)
        (sql_sum (map (λ x. mul_f64 x x) xs))

  unfoldable pub check_histogram_trend :
      Policy Number → Value Number → M Number (Option PolicyEvaluation)
  unfolding payloads_except anomaly
  check_histogram_trend policy rule =
      let name = unwrap_or (text_at "field" rule) "amount" in
      let threshold = unwrap_or (real P "stddev_threshold" rule) (f64_lit "2.0") in
      for_some (current_value name) none (λ val. do
        rows ← attempt (
            select (λ t.
              json_reals ("$." <> name) (payloads_except "pending" action.agent_id t.actions)))
        pure (trend_of policy name val threshold rows))

  unfoldable pub check_budget_limit :
      Policy Number → Value Number → M Number (Option PolicyEvaluation)
  unfolding payloads_except
  check_budget_limit policy rule = do
    let max_budget = unwrap_or (real P "max_budget" rule) (f64_lit "10000.0")
    rows ←
        attempt
          (select (λ t. json_reals "$.amount" (payloads_except "denied" action.agent_id t.actions)))
    pure (elim rows [
      | none ↦ none
      | some answer ↦ elim answer [
        | none ↦ none
        | some xs ↦
            let total = unwrap_or (sql_sum xs) (f64_lit "0") in
            limit_when (ge_f64 total max_budget) policy high (
              "Budget limit: $"
              <> (show_fixed 2 total <> (" total (max $" <> (show_fixed 2 max_budget <> ")"))))
      ]
    ])

  -- The four tests of the type, which is one text.
  unfoldable pub check_limit : Policy Number → Value Number → M Number (Option PolicyEvaluation)
  unfolding check_rate_limit check_concurrency_limit check_histogram_trend check_budget_limit
  check_limit policy rule =
      if is_type "rate_limit" rule
      then check_rate_limit policy rule
      else if is_type "concurrency_limit" rule
      then check_concurrency_limit policy rule
      else if is_type "histogram_trend" rule
      then check_histogram_trend policy rule
      else if is_type "budget_limit" rule
      then check_budget_limit policy rule
      else pure none

  unfoldable pub limits_loop :
      Policy Number → List (Value Number) → M Number (Option PolicyEvaluation)
  unfolding check_limit
  limits_loop policy [] = pure none
  limits_loop policy (rule ∷ rules) = do
    limited ← check_limit policy rule
    or_try limited (limits_loop policy rules)

  unfoldable pub check_limits : List (Policy Number) → M Number (Option PolicyEvaluation)
  unfolding limits_loop
  check_limits [] = pure none
  check_limits (policy ∷ policies) = do
    limited ← limits_loop policy (unwrap_or (as_array policy.rules) [])
    or_try limited (check_limits policies)
