-- ===== src/Admin/Transitions.antt =====
-- What an override through the API changes: the steps it makes between statuses, and what is left of
-- it when its entry cannot be written.
use deko.Prelude.{
  ◌≡◌, refl, ◌∙◌, ◌⊎◌, inl, inr, String, Bool, true, false, Option, none, some, List, [], ◌∷◌,
  arith, ◌==◌, string_eq, if◌then◌else◌, Bool-cases,
}
use mathlib.Core.Path.{subst}
use mathlib.Core.Sum.{inr-injective, inl-ne-inr}
use deko.Prelude.Int.{pos}
use deko.Prelude.Text.{trim}
use deko.Json.{Value}
use deko.Models.{
  Action, ActionStatus, pending, processing, approved, denied, escalated, forwarded, forward_failed,
}
use deko.Errors.{AppError, Result, err, database, bad_request, not_found}
use deko.Platform.{Platform}
use deko.Audit.Record.{record_entry}
use deko.Audit.Steps.{Keeps-record_entry}
use deko.World.{World, pure, raise, gets, select, execute, statement, require, transaction, ◌>>=◌}
use deko.World.Steps.{Keeps, IsStep, Keeps-bind, Keeps-pure}
use deko.VerdictService.Process.{find_action, set_status_at}
use deko.Admin.Api.{
  new_status, can_approve, can_deny, can_escalate, allow, apply_status, override_found,
  override_action,
}

-- The steps that an administrator can make.
pub data Overrides : ActionStatus → ActionStatus → Type 0 where
  pending_approved : Overrides pending approved
  pending_denied : Overrides pending denied
  pending_escalated : Overrides pending escalated
  escalated_approved : Overrides escalated approved
  escalated_denied : Overrides escalated denied
  denied_approved : Overrides denied approved

approves : (s : ActionStatus) → can_approve s ≡ true → Overrides s approved
approves pending e = pending_approved
approves processing e = absurd (ground arith)
approves approved e = absurd (ground arith)
approves denied e = denied_approved
approves escalated e = escalated_approved
approves forwarded e = absurd (ground arith)
approves forward_failed e = absurd (ground arith)

denies : (s : ActionStatus) → can_deny s ≡ true → Overrides s denied
denies pending e = pending_denied
denies processing e = absurd (ground arith)
denies approved e = absurd (ground arith)
denies denied e = absurd (ground arith)
denies escalated e = escalated_denied
denies forwarded e = absurd (ground arith)
denies forward_failed e = absurd (ground arith)

escalates : (s : ActionStatus) → can_escalate s ≡ true → Overrides s escalated
escalates pending e = pending_escalated
escalates processing e = absurd (ground arith)
escalates approved e = absurd (ground arith)
escalates denied e = absurd (ground arith)
escalates escalated e = absurd (ground arith)
escalates forwarded e = absurd (ground arith)
escalates forward_failed e = absurd (ground arith)

allowed_step :
    (b : Bool) (target s s' : ActionStatus) (message : String)
    → (b ≡ true → Overrides s target)
    → allow b target message ≡ inr s'
    → Overrides s s'
allowed_step true target s s' message k e = subst (Overrides s) (inr-injective _ _ e) (k refl)
allowed_step false target s s' message k e = absurd (inl-ne-inr e)

step_of :
    (decision : String) (s s' : ActionStatus) → new_status decision s ≡ inr s' → Overrides s s'
unfolding new_status
step_of decision s s' e = elim (Bool-cases (decision == "approved")) [
  | inl a ↦ allowed_step (can_approve s) approved s s' _ (approves s) (rw a at e)
  | inr a ↦ elim (Bool-cases (decision == "denied")) [
    | inl d ↦ allowed_step (can_deny s) denied s s' _ (denies s) (rw (a, d) at e)
    | inr d ↦ elim (Bool-cases (decision == "escalated")) [
      | inl c ↦ allowed_step (can_escalate s) escalated s s' _ (escalates s) (rw (a, d, c) at e)
      | inr c ↦ absurd (inl-ne-inr (rw (a, d, c) at e))
    ]
  ]
]

-- The actions and verdicts stay as they are.
abbrev SameActions : {N : Type 0} → World N → World N → Type 0
SameActions u v = (v.tables.verdicts ≡ u.tables.verdicts) × (v.tables.actions ≡ u.tables.actions)

SameActions-IsStep : {N : Type 0} → IsStep (SameActions {N = N})
SameActions-IsStep = record {
  same = λ w fs n. (refl, refl);
  trans = λ u v w (h, i) (k, l). (k ∙ h, l ∙ i);
  back = λ u v h. (refl, refl);
}

module _ (P : Platform) (id decision reason : String) (w : World P.Number) where
  -- The verdicts stay, and so do the actions, with an error, or the status of the action makes one
  -- of the steps.
  abbrev pub Steps : Result ActionStatus × World P.Number → Type 0
  Steps (r, v) =
      (v.tables.verdicts ≡ w.tables.verdicts)
      × (((v.tables.actions ≡ w.tables.actions) × ((e : AppError) × (r ≡ err e)))
          ⊎ ((action : Action) × (status : ActionStatus) × (find_action id w.tables ≡ some action)
              × Overrides action.status status
              × (v.tables.actions
                  ≡ set_status_at id status (P.sqlite_time (pos w.clock)) w.tables.actions)))

  Keeps-recorded :
      (status : ActionStatus) (details : Value P.Number)
      → Keeps SameActions
          (record_entry P (some id) "admin_override" details >>= λ done. pure status)
  Keeps-recorded status details =
      Keeps-bind SameActions SameActions-IsStep _ _
        (Keeps-record_entry P SameActions SameActions-IsStep
          (λ u row action_id event_type text created_at. (refl, refl)) _ _ _)
        (λ done. Keeps-pure SameActions SameActions-IsStep _)

  applied_with :
      (action : Action) (target : String ⊎ ActionStatus) (fs : List Bool)
      → find_action id w.tables ≡ some action
      → new_status decision action.status ≡ target
      → Steps (apply_status P id decision reason action.status target (record w { faults = fs }))
  unfolding apply_status gets execute statement raise ◌>>=◌
  applied_with action (inl message) fs f e = (refl, inl (refl, (bad_request message, refl)))
  applied_with action (inr status) (true ∷ fs) f e = (refl, inl (refl, (database, refl)))
  applied_with action (inr status) [] f e =
      let (verdicts, actions) = (Keeps-recorded status _).at _ in
      (verdicts, inr (action, status, f, step_of decision action.status status e, actions))
  applied_with action (inr status) (false ∷ fs) f e =
      let (verdicts, actions) = (Keeps-recorded status _).at _ in
      (verdicts, inr (action, status, f, step_of decision action.status status e, actions))

  found_with :
      (o : Option Action) (fs : List Bool)
      → find_action id w.tables ≡ o
      → Steps (
          (require (not_found "Action not found") o >>= override_found P id decision reason)
            (record w { faults = fs }))
  unfolding require raise override_found ◌>>=◌
  found_with none fs f = (refl, inl (refl, (not_found _, refl)))
  found_with (some action) fs f = applied_with action _ fs f refl

  overridden_with :
      (blank : Bool) (e : AppError) (fs : List Bool)
      → Steps (
          (if blank
              then raise e
              else (select (find_action id) >>= (λ row.
                  require (not_found "Action not found") row
                  >>= override_found P id decision reason)))
            (record w { faults = fs }))
  unfolding raise select statement ◌>>=◌
  overridden_with true e fs = (refl, inl (refl, (e, refl)))
  overridden_with false e (true ∷ fs) = (refl, inl (refl, (database, refl)))
  overridden_with false e [] = found_with (find_action id w.tables) [] refl
  overridden_with false e (false ∷ fs) = found_with (find_action id w.tables) fs refl

-- Whatever statements fail, an override through the API changes no verdict, and either leaves the
-- actions and returns an error, or makes one of six steps on the status of the action: from pending
-- to approved, denied or escalated, from escalated to approved or denied, and from denied to
-- approved.
pub override_action-Steps :
    (P : Platform) (id decision reason : String) (w : World P.Number)
    → Steps P id decision reason w (override_action P id decision reason w)
unfolding override_action
override_action-Steps P id decision reason w =
    overridden_with P id decision reason w (trim reason == "") _ w.faults

-- If the update succeeds and the transaction of the entry cannot begin, the override through the API
-- has changed the action without an entry in the log, and returns the database error.
pub override_action-unrecorded :
    (P : Platform) (id decision reason : String) (w : World P.Number) (action : Action)
    (status : ActionStatus) (fs : List Bool)
    → (trim reason == "") ≡ false
    → find_action id w.tables ≡ some action
    → new_status decision action.status ≡ inr status
    → let (r, v) =
        override_action P id decision reason
          (record w { faults = false ∷ (false ∷ (true ∷ fs)) }) in
      (r ≡ err database)
      × (v.tables ≡ record w.tables {
        actions = set_status_at id status (P.sqlite_time (pos w.clock)) w.tables.actions;
      })
unfolding override_action override_found apply_status record_entry transaction require gets select
    execute statement ◌>>=◌ pure
override_action-unrecorded P id decision reason w action status fs given f e =
    rw (given, f, e) (refl, refl)
