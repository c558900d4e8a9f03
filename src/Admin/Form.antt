-- ===== src/Admin/Form.antt =====
-- routes/admin.rs: override_action and bulk_override_actions. `confirmed` says whether the header
-- X-Admin-Confirm reads yes.
use deko.Prelude.{
  ℕ, suc, ltb, String, Bool, true, false, not, ◌&&◌, some, List, [], ◌∷◌, map, keep, length, ◌==◌,
  string_eq, if◌then◌else◌,
}
use deko.Prelude.Int.{pos}
use deko.Prelude.Text.{trim}
use deko.Json.{text, bool, object}
use deko.Models.{Action, ActionStatus, approved, denied, escalated, show_status}
use deko.Errors.{bad_request, not_found}
use deko.Platform.{Platform}
use deko.Audit.Record.{insert_chained_tx, record_entry}
use deko.World.{
  M, pure, raise, select, execute, statement, attempt, gets, require, transaction, ◌>>=◌,
}
use deko.VerdictService.Process.{find_action, set_status_at}

abbrev pub is_overridable : ActionStatus → Bool
is_overridable denied = true
is_overridable escalated = true
is_overridable _ = false

module _ (P : Platform) where
  open P use {Number, sqlite_time}

  -- The block of the transaction. Of the two statuses that come here, `{:?}` in lower case is the
  -- same text as the status in the table.
  unfoldable pub store_override : String → String → ActionStatus → M Number (Unit {0})
  unfolding set_status_at show_status insert_chained_tx
  store_override id reason previous = do
    now ← gets (λ w. sqlite_time (pos w.clock))
    _ ← execute (λ t. record t { actions = set_status_at id approved now t.actions })
    insert_chained_tx P (some id) "admin_override"
        (object (("previous_status", text (show_status previous)) ∷ ("reason", text reason) ∷ []))

  unfoldable pub override_found : String → String → Action → M Number (Unit {0})
  unfolding store_override
  override_found id reason action =
      if is_overridable action.status
      then transaction (store_override id reason action.status)
      else raise (bad_request "Can only override denied or escalated actions")

  unfoldable pub override_action : Bool → String → String → M Number (Unit {0})
  unfolding override_found find_action trim
  override_action confirmed id reason =
      if trim reason == ""
      then raise (bad_request "reason is required")
      else if not confirmed
      then raise (bad_request "Confirmation required: set X-Admin-Confirm: yes header")
      else (select (find_action id)
          >>= (λ row. require (not_found "Action not found") row >>= override_found id reason))

  abbrev pub matches : String → Action → Bool
  matches id a = (a.id == id) && is_overridable a.status

  abbrev pub approve_matching : String → String → List Action → List Action
  approve_matching id now actions =
      map (λ a. if matches id a then record a { status = approved; updated_at = now } else a)
        actions

  -- The entry of an action that was updated; an error is dropped. The answer counts it.
  unfoldable pub record_if_updated : String → String → ℕ → ℕ → M Number ℕ
  record_if_updated id reason n overridden =
      if ltb 0 n
      then (attempt (
            record_entry P (some id) "action_overridden"
              (object (("reason", text reason) ∷ ("bulk", bool true) ∷ [])))
          >>= (λ done. pure (suc overridden)))
      else pure overridden

  unfoldable pub bulk_loop : String → List String → ℕ → M Number ℕ
  unfolding record_if_updated
  bulk_loop reason [] overridden = pure overridden
  bulk_loop reason (id ∷ ids) overridden = do
    now ← gets (λ w. sqlite_time (pos w.clock))
    n ← statement (λ t. (
      length (keep (matches id) t.actions),
      record t { actions = approve_matching id now t.actions },
    ))
    overridden' ← record_if_updated id reason n overridden
    bulk_loop reason ids overridden'

  unfoldable pub bulk_override_actions : Bool → List String → String → M Number ℕ
  unfolding bulk_loop trim
  bulk_override_actions confirmed ids reason =
      if not confirmed
      then raise (bad_request "Confirmation required: set X-Admin-Confirm: yes header")
      else if trim reason == ""
      then raise (bad_request "reason is required")
      else if ltb 100 (length ids)
      then raise (bad_request "Maximum 100 actions per bulk operation")
      else bulk_loop reason ids 0
