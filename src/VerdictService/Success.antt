-- ===== src/VerdictService/Success.antt =====
-- The steps of the verdict service have a value when no statement fails.
use deko.Prelude.{
  refl, Option-cases, inl, inr, ℕ, zero, suc, String, Option, none, some, List, [], ◌∷◌, ◌⊎◌,
}
use deko.Json.{Value}
use deko.Models.{Action, Policy, VerdictDecision, approved, denied, escalate}
use deko.Errors.{Result, ok, err}
use deko.Llm.{Provider, VerdictResult}
use deko.Net.{Url}
use deko.PolicyEngine.Rules.{Now}
use deko.PolicyEngine.Evaluate.{evaluate_rule}
use deko.Platform.{Platform}
use deko.Audit.Record.{insert_chained_tx, record_entry}
use deko.Webhook.{attempts, send_checked, send_verdict}
use deko.World.{Delivery, M}
use deko.World.Success.{Succeeds, success_rules, Succeeds-bind, Succeeds-update, Succeeds-or_try}
use deko.VerdictService.{Service, PolicyEvaluation}
use deko.VerdictService.Limits.{
  check_rate_limit, check_concurrency_limit, check_histogram_trend, check_budget_limit, check_limit,
  limits_loop, check_limits,
}
use deko.VerdictService.Policies.{
  rules_loop, policies_loop, evaluate_policies, from_action, or_continue, then_limits,
}
use deko.VerdictService.Analysis.{on_answer, ask_providers, try_llm_analysis, record_success}
use deko.VerdictService.Process.{store_verdict, notify, notify_if_held, save_verdict}

module _ (P : Platform) where
  module _ (action_id : Option String) (event_type : String) (details : Value P.Number) where
    pub Succeeds-insert_chained_tx : Succeeds (insert_chained_tx P action_id event_type details)
    unfolding insert_chained_tx
    Succeeds-insert_chained_tx = search success_rules

    pub Succeeds-record_entry : Succeeds (record_entry P action_id event_type details)
    unfolding record_entry
    Succeeds-record_entry = search (success_rules, Succeeds-insert_chained_tx)

  module _ (svc : Service P.F64) where
    module _ (action : Action) where
      module _ (context : String) (policy : Policy P.Number) (rule : Value P.Number) where
        Succeeds-check_rate_limit : Succeeds (check_rate_limit P svc action context policy rule)
        unfolding check_rate_limit
        Succeeds-check_rate_limit = search success_rules

        Succeeds-check_concurrency_limit :
            Succeeds (check_concurrency_limit P svc action context policy rule)
        unfolding check_concurrency_limit
        Succeeds-check_concurrency_limit = search success_rules

        Succeeds-check_histogram_trend :
            Succeeds (check_histogram_trend P svc action context policy rule)
        unfolding check_histogram_trend
        Succeeds-check_histogram_trend = search success_rules

        Succeeds-check_budget_limit : Succeeds (check_budget_limit P svc action context policy rule)
        unfolding check_budget_limit
        Succeeds-check_budget_limit = search success_rules

        Succeeds-check_limit : Succeeds (check_limit P svc action context policy rule)
        unfolding check_limit
        Succeeds-check_limit =
            search
              (
                success_rules, Succeeds-check_rate_limit, Succeeds-check_concurrency_limit,
                Succeeds-check_histogram_trend, Succeeds-check_budget_limit,
              )
              depth 8

      Succeeds-limits_loop :
          (context : String) (policy : Policy P.Number) (rules : List (Value P.Number))
          → Succeeds (limits_loop P svc action context policy rules)
      unfolding limits_loop
      Succeeds-limits_loop context policy [] = search success_rules
      Succeeds-limits_loop context policy (rule ∷ rules) =
          Succeeds-bind _ _ (Succeeds-check_limit context policy rule)
            (λ o. Succeeds-or_try o _ (Succeeds-limits_loop context policy rules))

      Succeeds-check_limits :
          (context : String) (policies : List (Policy P.Number))
          → Succeeds (check_limits P svc action context policies)
      unfolding check_limits
      Succeeds-check_limits context [] = search success_rules
      Succeeds-check_limits context (policy ∷ policies) =
          Succeeds-bind _ _ (Succeeds-limits_loop context policy _)
            (λ o. Succeeds-or_try o _ (Succeeds-check_limits context policies))

      Succeeds-rules_loop :
          (now : Now) (policy : Policy P.Number) (rules : List (Value P.Number))
          (parts : List String)
          → Succeeds (rules_loop P svc action now policy rules parts)
      unfolding rules_loop
      Succeeds-rules_loop now policy [] parts = search success_rules
      Succeeds-rules_loop now policy (rule ∷ rules) parts =
          elim (Option-cases (evaluate_rule P (from_action action) now rule)) [
            | inl e ↦ rw (e, rules_loop) (Succeeds-rules_loop now policy rules parts)
            | inr (result, e) ↦
                rw (e, rules_loop)
                  (search
                    (success_rules, Succeeds-record_entry, Succeeds-rules_loop now policy rules)
                    depth 8)
          ]

      Succeeds-or_continue :
          (found : List String × Option PolicyEvaluation)
          (next : List String → M P.Number (List String × Option PolicyEvaluation))
          → ((parts : List String) → Succeeds (next parts))
          → Succeeds (or_continue P svc action found next)
      Succeeds-or_continue (parts, none) next k = k parts
      Succeeds-or_continue (parts, some e) next k = search success_rules

      Succeeds-policies_loop :
          (now : Now) (policies : List (Policy P.Number)) (parts : List String)
          → Succeeds (policies_loop P svc action now policies parts)
      unfolding policies_loop
      Succeeds-policies_loop now [] parts = search success_rules
      Succeeds-policies_loop now (policy ∷ policies) parts = search (
        success_rules,
        Succeeds-rules_loop,
        Succeeds-or_continue,
        Succeeds-policies_loop now policies,
      )

      Succeeds-then_limits :
          (policies : List (Policy P.Number)) (found : List String × Option PolicyEvaluation)
          → Succeeds (then_limits P svc action policies found)
      Succeeds-then_limits policies (parts, some e) = search success_rules
      Succeeds-then_limits policies (parts, none) = search (success_rules, Succeeds-check_limits)

      pub Succeeds-evaluate_policies : Succeeds (evaluate_policies P svc action)
      unfolding evaluate_policies
      Succeeds-evaluate_policies =
          search (success_rules, Succeeds-policies_loop, Succeeds-then_limits)

      Succeeds-on_answer :
          (context : String) (idx : ℕ) (provider : Provider P.F64) (rest : List (Provider P.F64))
          (next : Option String → M P.Number (VerdictResult P.F64))
          (answer : Result (VerdictResult P.F64))
          → ((last : Option String) → Succeeds (next last))
          → Succeeds (on_answer P svc action context idx provider rest next answer)
      unfolding on_answer record_success
      Succeeds-on_answer context idx provider rest next (ok verdict) k =
          Succeeds-bind _ _ (Succeeds-update _ (λ w. refl)) (λ _. search success_rules)
      Succeeds-on_answer context idx provider rest next (err e) k =
          search (success_rules, Succeeds-record_entry)

      Succeeds-ask_providers :
          (context : String) (idx : ℕ) (providers : List (Provider P.F64)) (last : Option String)
          → Succeeds (ask_providers P svc action context idx providers last)
      unfolding ask_providers
      Succeeds-ask_providers context idx [] last =
          Succeeds-bind _ _ (Succeeds-update _ (λ w. refl)) (λ _. search success_rules)
      Succeeds-ask_providers context idx (provider ∷ rest) last =
          Succeeds-on_answer context idx provider rest _ _
            (Succeeds-ask_providers context (suc idx) rest)

      pub Succeeds-try_llm_analysis :
          (context : String) → Succeeds (try_llm_analysis P svc action context)
      unfolding try_llm_analysis
      Succeeds-try_llm_analysis context =
          Succeeds-bind _ _ (Succeeds-update _ (λ w. refl))
            (λ _. search (success_rules, Succeeds-record_entry, Succeeds-ask_providers))

    Succeeds-attempts :
        (delivery : Delivery) (left attempt : ℕ)
        → Succeeds {N = P.Number} (attempts P svc.answers delivery left attempt)
    unfolding attempts
    Succeeds-attempts delivery zero attempt = search success_rules
    Succeeds-attempts delivery (suc left) attempt =
        Succeeds-bind _ _ (Succeeds-update _ (λ w. refl))
          (λ _. search (success_rules, Succeeds-attempts delivery left))

    module _ (action_id agent_id : String) (verdict : VerdictResult P.F64) where
      Succeeds-send_checked :
          (url : String) (checked : String ⊎ Url)
          → Succeeds (send_checked P svc.webhook svc.answers action_id verdict url checked)
      unfolding send_checked
      Succeeds-send_checked url (inl message) = search success_rules
      Succeeds-send_checked url (inr checked) = search (success_rules, Succeeds-attempts)

      Succeeds-send_verdict :
          (url : Option String)
          → Succeeds (send_verdict P svc.webhook svc.answers svc.url_error action_id verdict url)
      unfolding send_verdict
      Succeeds-send_verdict url = search (success_rules, Succeeds-send_checked)

      Succeeds-notify : Succeeds (notify P svc action_id agent_id verdict)
      unfolding notify
      Succeeds-notify = search (success_rules, Succeeds-send_verdict)

      Succeeds-notify_if_held :
          (d : VerdictDecision)
          → Succeeds (notify_if_held P svc d (notify P svc action_id agent_id verdict))
      unfolding notify_if_held
      Succeeds-notify_if_held approved = search success_rules
      Succeeds-notify_if_held denied = Succeeds-notify
      Succeeds-notify_if_held escalate = Succeeds-notify

      Succeeds-store_verdict :
          (verdict_id : String) (matched : Option String)
          → Succeeds (store_verdict P svc verdict_id action_id verdict matched)
      unfolding store_verdict
      Succeeds-store_verdict verdict_id matched =
          search (success_rules, Succeeds-insert_chained_tx) depth 8

      pub Succeeds-save_verdict :
          (matched : Option String)
          → Succeeds (save_verdict P svc action_id agent_id verdict matched)
      unfolding save_verdict
      Succeeds-save_verdict matched = Succeeds-bind _ _ (search success_rules) (λ n.
          Succeeds-bind _ _ (Succeeds-update _ (λ w. refl)) (λ _.
            Succeeds-bind _ _ (search (success_rules, Succeeds-store_verdict)) (λ _.
              Succeeds-bind _ _ (Succeeds-notify_if_held verdict.decision)
                (λ _. Succeeds-update _ (λ w. refl)))))
