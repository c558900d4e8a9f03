-- ===== src/VerdictService/Process.antt =====
-- services/verdict.rs: `save_verdict` and `process_action`.
use deko.Prelude.{
  String, ◌<>◌, Bool, true, false, Option, none, some, List, [], ◌∷◌, ◌++◌, map, any, find, length,
  ◌==◌, string_eq, unwrap_or, if◌then◌else◌,
}
use deko.Prelude.Int.{pos}
use deko.Prelude.Text.{join, show_nat}
use deko.Json.{Value, object, text, optional, arr, from_list}
use deko.Models.{
  Action, ActionStatus, pending, processing, escalated, Verdict, VerdictDecision, escalate, high,
  critical, show_decision, show_risk,
}
use deko.Errors.{not_found}
use deko.Llm.{VerdictResult, provider_gemini, provider_text}
use deko.Injection.{
  InjectionResult, MatchedPattern, analyze, injection_context, is_critical, show_severity,
}
use deko.Webhook.{send_verdict}
use deko.Platform.{Platform}
use deko.Audit.Record.{insert_chained_tx, record_entry}
use deko.World.{
  Tables, Agent, Metrics, M, pure, select, gets, update, draw, execute, transaction, require, ◌>>=◌,
}
use deko.VerdictService.{Service, PolicyEvaluation}
use deko.VerdictService.Policies.{evaluate_policies}
use deko.VerdictService.Analysis.{incremented, try_llm_analysis}

-- The status of a decision.
unfoldable pub status_of : VerdictDecision → ActionStatus
status_of VerdictDecision.approved = ActionStatus.approved
status_of VerdictDecision.denied = ActionStatus.denied
status_of escalate = escalated

-- The counters that a decision moves.
unfoldable pub count_decision : VerdictDecision → Metrics → Metrics
count_decision VerdictDecision.approved m = record m {
  actions_approved = incremented m.actions_approved;
  actions_total = incremented m.actions_total;
}
count_decision VerdictDecision.denied m = record m {
  actions_denied = incremented m.actions_denied;
  actions_total = incremented m.actions_total;
}
count_decision escalate m = record m {
  actions_escalated = incremented m.actions_escalated;
  actions_total = incremented m.actions_total;
}

-- `UPDATE actions SET status = ? WHERE id = ?`, and with `updated_at`
unfoldable pub set_status : String → ActionStatus → List Action → List Action
set_status id s actions = map (λ a. if a.id == id then record a { status = s } else a) actions

unfoldable pub set_status_at : String → ActionStatus → String → List Action → List Action
set_status_at id s now actions =
    map (λ a. if a.id == id then record a { status = s; updated_at = now } else a) actions

unfoldable pub find_action : {N : Type 0} → String → Tables N → Option Action
find_action id t = find (λ a. a.id == id) t.actions

abbrev webhook_of : Option Agent → Option String
webhook_of none = none
webhook_of (some a) = a.webhook_url

module _ (P : Platform) (svc : Service P.F64) where
  open P use {Number, F64, uuid, sqlite_time, json_f64, f64_lit}

  abbrev pub verdict_members : VerdictResult F64 → Option String → List (String × Value Number)
  verdict_members verdict policy_matched =
      ("decision", text (show_decision verdict.decision))
      ∷ ("reason", text verdict.reason)
      ∷ ("risk_level", text (show_risk verdict.risk_level))
      ∷ ("provider", text (provider_text verdict.provider))
      ∷ ("model", text verdict.model)
      ∷ ("confidence", json_f64 verdict.confidence)
      ∷ ("policy_matched", optional policy_matched)
      ∷ ("reasoning_chain", optional verdict.reasoning_chain)
      ∷ []

  abbrev pub verdict_row : String → String → VerdictResult F64 → Option String → String → Verdict
  verdict_row verdict_id action_id verdict policy_matched now = record {
    id = verdict_id;
    action_id = action_id;
    decision = verdict.decision;
    reason = verdict.reason;
    risk_level = verdict.risk_level;
    policy_matched = policy_matched;
    llm_raw_response = some verdict.raw_response;
    reasoning_chain = verdict.reasoning_chain;
    created_at = now;
  }

  -- The block of the transaction.
  unfoldable pub store_verdict :
      String → String → VerdictResult F64 → Option String → M Number (Unit {0})
  unfolding set_status_at status_of
  store_verdict verdict_id action_id verdict policy_matched = do
    clock ← gets (λ w. w.clock)
    let now = sqlite_time (pos clock)
    let row = verdict_row verdict_id action_id verdict policy_matched now
    _ ← execute (λ t. record t { verdicts = t.verdicts ++ (row ∷ []) })
    _ ← execute (λ t. record t {
      actions = set_status_at action_id (status_of verdict.decision) now t.actions;
    })
    insert_chained_tx P (some action_id) "verdict_issued"
        (object (("verdict_id", text verdict_id) ∷ verdict_members verdict policy_matched))

  -- Denials and escalations go to the webhook of the agent, or to the default one; a delivery that
  -- fails is logged only.
  unfoldable pub notify : String → String → VerdictResult F64 → M Number (Unit {0})
  notify action_id agent_id verdict = do
    agent ← select (λ t. find (λ a. a.id == agent_id) t.agents)
    _ ← send_verdict P svc.webhook svc.answers svc.url_error action_id verdict (webhook_of agent)
    pure tt

  unfoldable pub notify_if_held : VerdictDecision → M Number (Unit {0}) → M Number (Unit {0})
  notify_if_held VerdictDecision.approved m = pure tt
  notify_if_held VerdictDecision.denied m = m
  notify_if_held escalate m = m

  unfoldable pub save_verdict :
      String → String → VerdictResult F64 → Option String → M Number (Unit {0})
  unfolding count_decision store_verdict notify notify_if_held
  save_verdict action_id agent_id verdict policy_matched = do
    n ← draw
    _ ← update (λ w. record w { metrics = count_decision verdict.decision w.metrics })
    _ ← transaction (store_verdict (uuid n) action_id verdict policy_matched)
    _ ← notify_if_held verdict.decision (notify action_id agent_id verdict)
    let message = P.print (
        object (
          ("type", text "verdict")
          ∷ ("action_id", text action_id)
          ∷ ("agent_id", text agent_id)
          ∷ verdict_members verdict policy_matched))
    update (λ w. record w { broadcasts = w.broadcasts ++ (message ∷ []) })

  -- The verdict of a policy that denies.
  unfoldable pub policy_verdict : PolicyEvaluation → VerdictResult F64
  unfolding join
  policy_verdict e =
      let reason = unwrap_or e.reason "Blocked by policy rule" in
      record {
        decision = VerdictDecision.denied;
        reason = reason;
        risk_level = unwrap_or e.risk_level high;
        raw_response = "";
        provider = provider_gemini;
        model = "policy_engine";
        confidence = f64_lit "1.0";
        reasoning_chain = some (
            join " → " (
              "Policy evaluation completed"
              ∷ ("Matched policy: " <> unwrap_or e.matched_policy_id "unknown")
              ∷ ("Violation: " <> reason)
              ∷ []));
      }

  -- The verdict of a critical injection.
  unfoldable pub injection_verdict : InjectionResult → VerdictResult F64
  unfolding join show_nat
  injection_verdict r =
      let patterns = map (λ p. p.name <> (": " <> p.match_text)) r.patterns in
      record {
        decision = VerdictDecision.denied;
        reason = "Prompt injection detected: " <> join "; " patterns;
        risk_level = critical;
        raw_response = "";
        provider = provider_gemini;
        model = "prompt_injection_detector";
        confidence = f64_lit "1.0";
        reasoning_chain = some (
            join " → " (
              "Prompt injection scan initiated"
              ∷ ("Detected " <> (show_nat (length r.patterns) <> " suspicious pattern(s)"))
              ∷ ("Critical pattern(s) found: " <> join ", " patterns)
              ∷ "Immediate deny triggered"
              ∷ []));
      }

  abbrev pattern_json : MatchedPattern → Value Number
  pattern_json p = object (
      ("name", text p.name)
      ∷ ("severity", text (show_severity p.severity))
      ∷ ("match_text", text p.match_text)
      ∷ [])

  abbrev injection_details : InjectionResult → Value Number
  injection_details r = object (
      ("patterns", arr (from_list (map pattern_json r.patterns)))
      ∷ ("risk_level", text (show_risk r.risk_level))
      ∷ [])

  abbrev pub has_critical : InjectionResult → Bool
  has_critical r = any (λ p. is_critical p.severity) r.patterns

  abbrev pub llm_context : Option String → String → String
  llm_context none context = context
  llm_context (some ctx) context = context <> ("\n" <> ctx)

  module _ (action_id : String) (action : Action) where
    -- The model is asked when neither the policies nor a critical injection have decided.
    unfoldable pub ask_llm : PolicyEvaluation → InjectionResult → M Number (Unit {0})
    unfolding save_verdict injection_context
    ask_llm e r = do
      verdict ← try_llm_analysis P svc action (llm_context (injection_context r) e.context)
      save_verdict action_id action.agent_id verdict e.matched_policy_id

    unfoldable pub scan : PolicyEvaluation → InjectionResult → M Number (Unit {0})
    unfolding ask_llm injection_verdict
    scan e r =
        if r.detected
        then record_entry P (some action_id) "prompt_injection_detected" (injection_details r)
          >>= (λ _.
              if has_critical r
              then save_verdict action_id action.agent_id (injection_verdict r) none
              else ask_llm e r)
        else ask_llm e r

    unfoldable pub decide : PolicyEvaluation → M Number (Unit {0})
    unfolding scan policy_verdict
    decide e =
        if e.immediate_deny
        then save_verdict action_id action.agent_id (policy_verdict e) e.matched_policy_id
        else scan e (analyze P action.intent action.payload)

    unfoldable pub process_pending_action : M Number (Unit {0})
    unfolding set_status decide
    process_pending_action = do
      _ ← execute (λ t. record t { actions = set_status action_id processing t.actions })
      _ ←
          record_entry P (some action_id) "processing_started"
            (object (("intent", text action.intent) ∷ []))
      e ← evaluate_policies P svc action
      decide e

  abbrev pub is_pending : ActionStatus → Bool
  is_pending pending = true
  is_pending _ = false

  unfoldable pub process_action : String → M Number (Unit {0})
  unfolding process_pending_action find_action
  process_action action_id = do
    row ← select (find_action action_id)
    action ← require (not_found "Action not found") row
    if is_pending action.status then process_pending_action action_id action else pure tt
