-- ===== src/VerdictService/Keeps.antt =====
-- What the steps of the verdict service leave of a world, for every relation that respects the
-- single changes.
use deko.Prelude.{Option-cases, inl, inr, ℕ, String, Bool, Option, none, some, List, [], ◌∷◌}
use deko.Json.{Value}
use deko.Models.{Action, Policy}
use deko.PolicyEngine.Rules.{Now}
use deko.PolicyEngine.Evaluate.{evaluate_rule}
use deko.Platform.{Platform}
use deko.Audit.Steps.{AllowsEntry, Keeps-record_entry}
use deko.World.{World, Metrics, Delivery, M}
use deko.World.Steps.{Keeps, IsStep, keeps_rules, Keeps-bind, Keeps-or_try}
use deko.VerdictService.{Service, PolicyEvaluation}
use deko.VerdictService.Limits.{
  check_rate_limit, check_concurrency_limit, check_histogram_trend, check_budget_limit, check_limit,
  limits_loop, check_limits,
}
use deko.VerdictService.Policies.{
  rules_loop, policies_loop, evaluate_policies, from_action, or_continue, then_limits,
}

module _ (P : Platform) (R : World P.Number → World P.Number → Type 0) (S : IsStep R) where
  -- What the process holds beside the tables may change.
  abbrev pub AllowsMemory : Type 0
  AllowsMemory =
      (w : World P.Number) (m : Metrics) (healthy : Bool) (requests : List (ℕ × ℕ))
      (broadcasts : List String) (webhooks : List Delivery)
      → R w (record w {
        metrics = m;
        provider_healthy = healthy;
        llm_requests = requests;
        broadcasts = broadcasts;
        webhooks = webhooks;
      })

  module _ (svc : Service P.F64) (action : Action) where
    module _ (context : String) (policy : Policy P.Number) (rule : Value P.Number) where
      Keeps-check_rate_limit : Keeps R (check_rate_limit P svc action context policy rule)
      unfolding check_rate_limit
      Keeps-check_rate_limit = search keeps_rules

      Keeps-check_concurrency_limit :
          Keeps R (check_concurrency_limit P svc action context policy rule)
      unfolding check_concurrency_limit
      Keeps-check_concurrency_limit = search keeps_rules

      Keeps-check_histogram_trend : Keeps R (check_histogram_trend P svc action context policy rule)
      unfolding check_histogram_trend
      Keeps-check_histogram_trend = search keeps_rules

      Keeps-check_budget_limit : Keeps R (check_budget_limit P svc action context policy rule)
      unfolding check_budget_limit
      Keeps-check_budget_limit = search keeps_rules

      pub Keeps-check_limit : Keeps R (check_limit P svc action context policy rule)
      unfolding check_limit
      Keeps-check_limit =
          search
            (
              keeps_rules, Keeps-check_rate_limit, Keeps-check_concurrency_limit,
              Keeps-check_histogram_trend, Keeps-check_budget_limit,
            )
            depth 8

    Keeps-limits_loop :
        (context : String) (policy : Policy P.Number) (rules : List (Value P.Number))
        → Keeps R (limits_loop P svc action context policy rules)
    unfolding limits_loop
    Keeps-limits_loop context policy [] = search keeps_rules
    Keeps-limits_loop context policy (rule ∷ rules) =
        Keeps-bind R S _ _ (Keeps-check_limit context policy rule)
          (λ o. Keeps-or_try R S o _ (Keeps-limits_loop context policy rules))

    pub Keeps-check_limits :
        (context : String) (policies : List (Policy P.Number))
        → Keeps R (check_limits P svc action context policies)
    unfolding check_limits
    Keeps-check_limits context [] = search keeps_rules
    Keeps-check_limits context (policy ∷ policies) =
        Keeps-bind R S _ _ (Keeps-limits_loop context policy _)
          (λ o. Keeps-or_try R S o _ (Keeps-check_limits context policies))

    module _ (allowed : AllowsEntry P R S) where
      Keeps-rules_loop :
          (now : Now) (policy : Policy P.Number) (rules : List (Value P.Number))
          (parts : List String)
          → Keeps R (rules_loop P svc action now policy rules parts)
      unfolding rules_loop
      Keeps-rules_loop now policy [] parts = search keeps_rules
      Keeps-rules_loop now policy (rule ∷ rules) parts =
          elim (Option-cases (evaluate_rule P (from_action action) now rule)) [
            | inl e ↦ rw (e, rules_loop) (Keeps-rules_loop now policy rules parts)
            | inr (result, e) ↦
                rw (e, rules_loop)
                  (search
                    (
                      keeps_rules,
                      Keeps-record_entry P R S allowed,
                      Keeps-rules_loop now policy rules,
                    )
                    depth 8)
          ]

      Keeps-or_continue :
          (found : List String × Option PolicyEvaluation)
          (next : List String → M P.Number (List String × Option PolicyEvaluation))
          → ((parts : List String) → Keeps R (next parts))
          → Keeps R (or_continue P svc action found next)
      Keeps-or_continue (parts, none) next k = k parts
      Keeps-or_continue (parts, some e) next k = search keeps_rules

      Keeps-policies_loop :
          (now : Now) (policies : List (Policy P.Number)) (parts : List String)
          → Keeps R (policies_loop P svc action now policies parts)
      unfolding policies_loop
      Keeps-policies_loop now [] parts = search keeps_rules
      Keeps-policies_loop now (policy ∷ policies) parts =
          search
            (keeps_rules, Keeps-rules_loop, Keeps-or_continue, Keeps-policies_loop now policies)

      Keeps-then_limits :
          (policies : List (Policy P.Number)) (found : List String × Option PolicyEvaluation)
          → Keeps R (then_limits P svc action policies found)
      Keeps-then_limits policies (parts, some e) = search keeps_rules
      Keeps-then_limits policies (parts, none) = search (keeps_rules, Keeps-check_limits)

      pub Keeps-evaluate_policies : Keeps R (evaluate_policies P svc action)
      unfolding evaluate_policies
      Keeps-evaluate_policies = search (keeps_rules, Keeps-policies_loop, Keeps-then_limits)
