-- ===== src/VerdictService/Whole.antt =====
-- What `process_action` as a whole leaves of a world, for every relation that respects the single
-- changes.
use deko.Prelude.{refl, ℕ, zero, suc, String, Option, List, [], ◌∷◌, ◌++◌, ◌⊎◌, inl, inr, ◌≡◌}
use deko.Models.{
  Action, ActionStatus, Verdict, VerdictDecision, approved, denied, escalate, processing,
}
use deko.Errors.{ok, err, Result}
use deko.Llm.{Provider, VerdictResult}
use deko.Injection.{InjectionResult}
use deko.Platform.{Platform}
use deko.Audit.Steps.{AllowsEntry, Keeps-record_entry, Keeps-insert_chained_tx}
use deko.Webhook.{attempts, send_checked, send_verdict}
use deko.Net.{Url}
use deko.World.{World, Delivery, M}
use deko.World.Steps.{
  Keeps, IsStep, keeps_rules, Keeps-bind, Keeps-update, Keeps-execute, Keeps-gets, Keeps-draw,
  Keeps-transaction,
}
use deko.VerdictService.{Service, PolicyEvaluation}
use deko.VerdictService.Analysis.{on_answer, ask_providers, try_llm_analysis, record_success}
use deko.VerdictService.Keeps.{AllowsMemory, Keeps-evaluate_policies}
use deko.VerdictService.Process.{
  set_status, set_status_at, store_verdict, notify, notify_if_held, save_verdict, ask_llm, scan,
  decide, process_pending_action, process_action,
}

module _ (P : Platform) (R : World P.Number → World P.Number → Type 0) (S : IsStep R) where
  -- The status of the action may change, and a verdict on it may be added.
  abbrev pub AllowsStatus : String → Type 0
  AllowsStatus id =
      (w : World P.Number) (s : ActionStatus)
      → R w (record w { tables = record w.tables { actions = set_status id s w.tables.actions } })

  abbrev pub AllowsStatusAt : String → Type 0
  AllowsStatusAt id =
      (w : World P.Number) (s : ActionStatus) (now : String)
      → R w (record w {
        tables = record w.tables { actions = set_status_at id s now w.tables.actions };
      })

  abbrev pub AllowsVerdict : String → VerdictDecision → Type 0
  AllowsVerdict id d =
      (w : World P.Number) (v : Verdict)
      → v.action_id ≡ id
      → v.decision ≡ d
      → R w (record w { tables = record w.tables { verdicts = w.tables.verdicts ++ (v ∷ []) } })

  module _ (svc : Service P.F64) (memory : AllowsMemory P R S) where
    Keeps-attempts :
        (delivery : Delivery) (left attempt : ℕ)
        → Keeps R (attempts P svc.answers delivery left attempt)
    unfolding attempts
    Keeps-attempts delivery zero attempt = search keeps_rules
    Keeps-attempts delivery (suc left) attempt =
        Keeps-bind R S _ _
          (Keeps-update R S _
            (λ w. memory w w.metrics w.provider_healthy w.llm_requests w.broadcasts _))
          (λ _. search (keeps_rules, Keeps-attempts delivery left))

    Keeps-send_checked :
        (action_id : String) (verdict : VerdictResult P.F64) (url : String) (checked : String ⊎ Url)
        → Keeps R (send_checked P svc.webhook svc.answers action_id verdict url checked)
    unfolding send_checked
    Keeps-send_checked action_id verdict url (inl message) = search keeps_rules
    Keeps-send_checked action_id verdict url (inr checked) = search (keeps_rules, Keeps-attempts)

    pub Keeps-send_verdict :
        (action_id : String) (verdict : VerdictResult P.F64) (url : Option String)
        → Keeps R (send_verdict P svc.webhook svc.answers svc.url_error action_id verdict url)
    unfolding send_verdict
    Keeps-send_verdict action_id verdict url = search (keeps_rules, Keeps-send_checked)

    pub Keeps-notify :
        (action_id agent_id : String) (verdict : VerdictResult P.F64)
        → Keeps R (notify P svc action_id agent_id verdict)
    unfolding notify
    Keeps-notify action_id agent_id verdict = search (keeps_rules, Keeps-send_verdict)

    pub Keeps-notify_if_held :
        (d : VerdictDecision) (m : M P.Number (Unit {0}))
        → Keeps R m
        → Keeps R (notify_if_held P svc d m)
    unfolding notify_if_held
    Keeps-notify_if_held approved m k = search keeps_rules
    Keeps-notify_if_held denied m k = k
    Keeps-notify_if_held escalate m k = k

    module _ (allowed : AllowsEntry P R S) (action : Action) where
      Keeps-on_answer :
          (context : String) (idx : ℕ) (provider : Provider P.F64) (rest : List (Provider P.F64))
          (next : Option String → M P.Number (VerdictResult P.F64))
          (answer : Result (VerdictResult P.F64))
          → ((last : Option String) → Keeps R (next last))
          → Keeps R (on_answer P svc action context idx provider rest next answer)
      unfolding on_answer record_success
      Keeps-on_answer context idx provider rest next (ok verdict) k =
          Keeps-bind R S _ _
            (Keeps-update R S _ (λ w. memory w _ w.provider_healthy _ w.broadcasts w.webhooks))
            (λ _. search keeps_rules)
      Keeps-on_answer context idx provider rest next (err e) k =
          search (keeps_rules, Keeps-record_entry P R S allowed)

      Keeps-ask_providers :
          (context : String) (idx : ℕ) (providers : List (Provider P.F64)) (last : Option String)
          → Keeps R (ask_providers P svc action context idx providers last)
      unfolding ask_providers
      Keeps-ask_providers context idx [] last =
          Keeps-bind R S _ _
            (Keeps-update R S _ (λ w. memory w _ _ w.llm_requests w.broadcasts w.webhooks))
            (λ _. search keeps_rules)
      Keeps-ask_providers context idx (provider ∷ rest) last =
          Keeps-on_answer context idx provider rest _ _ (Keeps-ask_providers context (suc idx) rest)

      pub Keeps-try_llm_analysis :
          (context : String) → Keeps R (try_llm_analysis P svc action context)
      unfolding try_llm_analysis
      Keeps-try_llm_analysis context =
          Keeps-bind R S _ _
            (Keeps-update R S _
              (λ w. memory w _ w.provider_healthy w.llm_requests w.broadcasts w.webhooks))
            (λ _. search (keeps_rules, Keeps-record_entry P R S allowed, Keeps-ask_providers))

    module _ (allowed : AllowsEntry P R S) (action_id : String)
        (status_at : AllowsStatusAt action_id) where
      Keeps-store_verdict :
          (verdict_id : String) (verdict : VerdictResult P.F64) (matched : Option String)
          → AllowsVerdict action_id verdict.decision
          → Keeps R (store_verdict P svc verdict_id action_id verdict matched)
      unfolding store_verdict
      Keeps-store_verdict verdict_id verdict matched verdicts =
          Keeps-bind R S _ _ (Keeps-gets R S _) (λ clock.
            Keeps-bind R S _ _ (Keeps-execute R S _ (λ w. verdicts w _ refl refl)) (λ _.
              Keeps-bind R S _ _ (Keeps-execute R S _ (λ w. status_at w _ _))
                (λ _. Keeps-insert_chained_tx P R S allowed _ _ _)))

      pub Keeps-save_verdict :
          (agent_id : String) (verdict : VerdictResult P.F64) (matched : Option String)
          → AllowsVerdict action_id verdict.decision
          → Keeps R (save_verdict P svc action_id agent_id verdict matched)
      unfolding save_verdict
      Keeps-save_verdict agent_id verdict matched verdicts =
          Keeps-bind R S _ _ (Keeps-draw R S) (λ n.
            Keeps-bind R S _ _
              (Keeps-update R S _
                (λ w. memory w _ w.provider_healthy w.llm_requests w.broadcasts w.webhooks))
              (λ _.
                Keeps-bind R S _ _
                  (Keeps-transaction R S _
                    (Keeps-store_verdict (P.uuid n) verdict matched verdicts))
                  (λ _.
                    Keeps-bind R S _ _
                      (Keeps-notify_if_held verdict.decision _
                        (Keeps-notify action_id agent_id verdict))
                      (λ _.
                        Keeps-update R S _ (λ w.
                          memory w w.metrics w.provider_healthy w.llm_requests _ w.webhooks)))))

    module _ (allowed : AllowsEntry P R S) (action_id : String) (status : AllowsStatus action_id)
        (status_at : AllowsStatusAt action_id)
        (verdicts : (d : VerdictDecision) → AllowsVerdict action_id d) where
      Keeps-save_any :
          (agent_id : String) (verdict : VerdictResult P.F64) (matched : Option String)
          → Keeps R (save_verdict P svc action_id agent_id verdict matched)
      Keeps-save_any agent_id verdict matched =
          Keeps-save_verdict allowed action_id status_at agent_id verdict matched
            (verdicts verdict.decision)

      module _ (action : Action) where
        Keeps-ask_llm :
            (e : PolicyEvaluation) (r : InjectionResult)
            → Keeps R (ask_llm P svc action_id action e r)
        unfolding ask_llm
        Keeps-ask_llm e r =
            search (keeps_rules, Keeps-try_llm_analysis allowed action, Keeps-save_any)

        Keeps-scan :
            (e : PolicyEvaluation) (r : InjectionResult) → Keeps R (scan P svc action_id action e r)
        unfolding scan
        Keeps-scan e r =
            search (keeps_rules, Keeps-record_entry P R S allowed, Keeps-save_any, Keeps-ask_llm)
              depth 8

        pub Keeps-decide : (e : PolicyEvaluation) → Keeps R (decide P svc action_id action e)
        unfolding decide
        Keeps-decide e = search (keeps_rules, Keeps-save_any, Keeps-scan)

        Keeps-process_pending_action : Keeps R (process_pending_action P svc action_id action)
        unfolding process_pending_action
        Keeps-process_pending_action =
            Keeps-bind R S _ _ (Keeps-execute R S _ (λ w. status w processing)) (λ _.
              Keeps-bind R S _ _ (Keeps-record_entry P R S allowed _ _ _) (λ _.
                Keeps-bind R S _ _ (Keeps-evaluate_policies P R S svc action allowed) Keeps-decide))

      pub Keeps-process_action : Keeps R (process_action P svc action_id)
      unfolding process_action
      Keeps-process_action = search (keeps_rules, Keeps-process_pending_action) depth 8
