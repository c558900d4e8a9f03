-- ===== src/Admin/Api.antt =====
-- routes/api_admin.rs: override_action. The answer is the new status.
use deko.Prelude.{
  String, Bool, true, false, ◌⊎◌, inl, inr, some, [], ◌∷◌, ◌==◌, string_eq, if◌then◌else◌,
}
use deko.Prelude.Int.{pos}
use deko.Prelude.Text.{trim}
use deko.Json.{text, object}
use deko.Models.{Action, ActionStatus, pending, approved, denied, escalated, show_status}
use deko.Errors.{bad_request, not_found}
use deko.Platform.{Platform}
use deko.Audit.Record.{record_entry}
use deko.World.{M, pure, raise, select, execute, gets, require, ◌>>=◌}
use deko.VerdictService.Process.{find_action, set_status_at}

-- From which statuses an action can be approved, denied and escalated.
abbrev pub can_approve : ActionStatus → Bool
can_approve denied = true
can_approve escalated = true
can_approve pending = true
can_approve _ = false

abbrev pub can_deny : ActionStatus → Bool
can_deny pending = true
can_deny escalated = true
can_deny _ = false

abbrev pub can_escalate : ActionStatus → Bool
can_escalate pending = true
can_escalate _ = false

abbrev pub allow : Bool → ActionStatus → String → String ⊎ ActionStatus
allow allowed status message = if allowed then inr status else inl message

unfoldable pub new_status : String → ActionStatus → String ⊎ ActionStatus
new_status decision current =
    if decision == "approved"
    then allow (can_approve current) approved
        "Can only override denied, escalated, or pending actions"
    else if decision == "denied"
    then allow (can_deny current) denied "Can only deny pending or escalated actions"
    else if decision == "escalated"
    then allow (can_escalate current) escalated "Can only escalate pending actions"
    else inl "decision must be 'approved', 'denied', or 'escalated'"

module _ (P : Platform) where
  open P use {Number, sqlite_time}

  unfoldable pub apply_status :
      String → String → String → ActionStatus → String ⊎ ActionStatus → M Number ActionStatus
  unfolding set_status_at show_status
  apply_status id decision reason previous (inl message) = raise (bad_request message)
  apply_status id decision reason previous (inr status) = do
    now ← gets (λ w. sqlite_time (pos w.clock))
    _ ← execute (λ t. record t { actions = set_status_at id status now t.actions })
    _ ← record_entry P (some id) "admin_override" (
        object (
          ("previous_status", text (show_status previous))
          ∷ ("decision", text decision)
          ∷ ("reason", text reason)
          ∷ []))
    pure status

  unfoldable pub override_found : String → String → String → Action → M Number ActionStatus
  unfolding apply_status new_status
  override_found id decision reason action =
      apply_status id decision reason action.status (new_status decision action.status)

  unfoldable pub override_action : String → String → String → M Number ActionStatus
  unfolding override_found find_action trim
  override_action id decision reason =
      if trim reason == ""
      then raise (bad_request "reason is required")
      else (select (find_action id) >>= (λ row.
          require (not_found "Action not found") row >>= override_found id decision reason))
