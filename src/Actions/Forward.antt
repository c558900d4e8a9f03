-- ===== src/Actions/Forward.antt =====
-- forward_action.
use deko.Prelude.{
  ℕ, String, ◌<>◌, Bool, true, false, ◌⊎◌, inl, inr, Option, some, [], ◌∷◌, find, ◌==◌, string_eq,
  nat_eq, if◌then◌else◌,
}
use deko.Json.{Value, bool, number, text, object, optional}
use deko.Models.{
  Action, ActionStatus, forwarded, forward_failed, Verdict, VerdictDecision, approved, denied,
  escalate,
}
use deko.Errors.{not_found, forbidden, bad_request, locked}
use deko.Net.{Url}
use deko.Platform.{Platform}
use deko.Audit.Record.{record_entry}
use deko.World.{Tables, M, pure, raise, select, execute, attempt, require, ◌>>=◌}
use deko.VerdictService.Process.{find_action, set_status}
use deko.Egress
use deko.Actions.Relay.{execute_forwarded_request, Response}
use deko.Actions.Transform.{apply_transform, transformed}

abbrev pub find_verdict : {N : Type 0} → String → Tables N → Option Verdict
find_verdict id t = find (λ v. v.action_id == id) t.verdicts

abbrev pub is_forwarded : ActionStatus → Bool
is_forwarded forwarded = true
is_forwarded _ = false

module _ (P : Platform) (answer : ℕ → String ⊎ Response) (url_error : String)
    (action_id : String) where
  open P use {Number, from_nat}

  -- The answer to the agent.
  unfoldable pub report : Action → String ⊎ (ℕ × (String × ℕ)) → M Number (Value Number)
  unfolding apply_transform set_status
  report action (inr (status, (body, attempt_no))) = pure (
      object (
        ("forwarded", bool true)
        ∷ ("target_status", number (from_nat status))
        ∷ ("target_response", text (transformed P action.metadata body))
        ∷ ("forward_attempts", number (from_nat attempt_no))
        ∷ []))
  report action (inl forward_error) = do
    _ ←
        attempt
          (execute (λ t. record t { actions = set_status action_id forward_failed t.actions }))
    _ ← attempt (
        record_entry P (some action_id) "forward_failed" (
          object (("error", text forward_error) ∷ ("target_url", optional action.target_url) ∷ [])))
    pure (object (("forwarded", bool false) ∷ ("forward_error", text forward_error) ∷ []))

  -- The three decisions.
  unfoldable pub by_decision :
      Action → String → Url → String → VerdictDecision → M Number (Value Number)
  unfolding execute_forwarded_request report set_status
  by_decision action method target reason approved = do
    _ ← execute (λ t. record t { actions = set_status action_id forwarded t.actions })
    relayed ← execute_forwarded_request P answer url_error action_id method action.payload target
    report action relayed
  by_decision action method target reason denied = raise (forbidden ("Action denied: " <> reason))
  by_decision action method target reason escalate =
      raise (locked ("Action requires human review: " <> reason))

  unfoldable pub to_target : Action → Verdict → String → String ⊎ Url → M Number (Value Number)
  unfolding by_decision
  to_target action verdict method (inl e) = raise (bad_request e)
  to_target action verdict method (inr target) =
      by_decision action method target verdict.reason verdict.decision

  unfoldable pub with_target :
      Action → Verdict → Option String → Option String → M Number (Value Number)
  unfolding to_target
  with_target action verdict (some url) (some method) =
      to_target action verdict method (Egress.parse P url_error url)
  with_target action verdict _ _ =
      pure (object (("forwarded", bool false) ∷ ("note", text "No target URL configured") ∷ []))

  unfoldable pub forward_judged : Action → Verdict → M Number (Value Number)
  unfolding with_target
  forward_judged action verdict =
      if is_forwarded action.status
      then raise (bad_request "Action already forwarded (idempotent)")
      else with_target action verdict action.target_url action.target_method

  unfoldable pub forward_owned : Action → M Number (Value Number)
  unfolding forward_judged
  forward_owned action = do
    row ← select (find_verdict action_id)
    verdict ← require (bad_request "No verdict available yet") row
    forward_judged action verdict

  unfoldable pub forward_action : String → M Number (Value Number)
  unfolding forward_owned find_action
  forward_action agent_id = do
    row ← select (find_action action_id)
    action ← require (not_found "Action not found") row
    if action.agent_id == agent_id
        then forward_owned action
        else raise (forbidden "Action belongs to another agent")
