-- ===== src/Admin/Recorded.antt =====
-- What an override through the form stores.
use deko.Prelude.{
  ◌≡◌, refl, ◌⊎◌, inl, inr, String, Bool, true, false, Option, none, some, List, [], ◌∷◌, ◌++◌,
  ◌==◌, string_eq, if◌then◌else◌, Bool-cases, not,
}
use deko.Prelude.Int.{pos}
use deko.Prelude.Text.{trim}
use deko.Json.{text, object}
use deko.Models.{Action, ActionStatus, approved, show_status}
use deko.Errors.{AppError, Result, ok, err, database, bad_request, not_found}
use deko.Platform.{Platform}
use deko.Audit.Chain.{current_head, chained_row}
use deko.Audit.Record.{insert_chained_tx}
use deko.World.{
  World, Tables, raise, gets, draw, select, execute, statement, require, transaction, ◌>>=◌,
}
use deko.VerdictService.Process.{find_action, set_status_at}
use deko.Admin.Form.{is_overridable, store_override, override_found, override_action}

module _ (P : Platform) (id reason : String) where
  -- The tables with the approval and its entry.
  abbrev pub with_override : ActionStatus → String → String → Tables P.Number → Tables P.Number
  with_override previous entry_id now t = record t {
    actions = set_status_at id approved now t.actions;
    audit_log =
        t.audit_log
        ++ (chained_row P (current_head t.audit_log) entry_id (some id) "admin_override"
              (P.print (
                object (
                  ("previous_status", text (show_status previous)) ∷ ("reason", text reason) ∷ [])))
              now
            ∷ []);
  }

  module _ (w : World P.Number) where
    abbrev pub Unchanged : Result (Unit {0}) × World P.Number → Type 0
    Unchanged (r, v) = ((e : AppError) × (r ≡ err e)) × (v.tables ≡ w.tables)

    -- Nothing is stored and an error is returned; or the action was denied or escalated, and both
    -- the approval and the entry are stored.
    abbrev pub RecordedOrNot : Result (Unit {0}) × World P.Number → Type 0
    RecordedOrNot (r, v) =
        Unchanged (r, v)
        ⊎ ((action : Action) × (find_action id w.tables ≡ some action)
            × (is_overridable action.status ≡ true)
            × (r ≡ ok tt)
            × (v.tables
                ≡ with_override action.status (P.uuid w.uuids) (P.sqlite_time (pos w.clock))
                    w.tables))

    abbrev Stores : ActionStatus → Result (Unit {0}) × World P.Number → Type 0
    Stores previous (r, v) =
        Unchanged (r, v)
        ⊎ ((r ≡ ok tt)
            × (v.tables
                ≡ with_override previous (P.uuid w.uuids) (P.sqlite_time (pos w.clock)) w.tables))

    -- By the faults: begin, the update, the read of the head, the insertion, and commit.
    stored_with :
        (previous : ActionStatus) (fs : List Bool)
        → Stores previous
            (transaction (store_override P id reason previous) (record w { faults = fs }))
    unfolding transaction store_override insert_chained_tx gets draw select execute statement ◌>>=◌
    stored_with previous [] = inr (refl, refl)
    stored_with previous (true ∷ fs) = inl ((database, refl), refl)
    stored_with previous (false ∷ []) = inr (refl, refl)
    stored_with previous (false ∷ true ∷ fs) = inl ((database, refl), refl)
    stored_with previous (false ∷ false ∷ []) = inr (refl, refl)
    stored_with previous (false ∷ false ∷ true ∷ fs) = inl ((database, refl), refl)
    stored_with previous (false ∷ false ∷ false ∷ []) = inr (refl, refl)
    stored_with previous (false ∷ false ∷ false ∷ true ∷ fs) = inl ((database, refl), refl)
    stored_with previous (false ∷ false ∷ false ∷ false ∷ []) = inr (refl, refl)
    stored_with previous (false ∷ false ∷ false ∷ false ∷ true ∷ fs) = inl ((database, refl), refl)
    stored_with previous (false ∷ false ∷ false ∷ false ∷ false ∷ fs) = inr (refl, refl)

    found_with :
        (o : Option Action) (fs : List Bool)
        → find_action id w.tables ≡ o
        → RecordedOrNot (
            (require (not_found "Action not found") o >>= override_found P id reason)
              (record w { faults = fs }))
    unfolding require raise override_found ◌>>=◌
    found_with none fs f = inl ((not_found _, refl), refl)
    found_with (some action) fs f = elim (Bool-cases (is_overridable action.status)) [
      | inr fixed ↦ rw fixed (inl ((bad_request _, refl), refl))
      | inl allowed ↦ rw allowed (elim (stored_with action.status fs) [
        | inl nothing ↦ inl nothing
        | inr (done, same) ↦ inr (action, f, allowed, done, same)
      ])
    ]

    overridden_with :
        (blank confirmed : Bool) (e f : AppError) (fs : List Bool)
        → RecordedOrNot (
            (if blank
                then raise e
                else if confirmed
                then raise f
                else (select (find_action id) >>= (λ row.
                    require (not_found "Action not found") row >>= override_found P id reason)))
              (record w { faults = fs }))
    unfolding raise select statement ◌>>=◌
    overridden_with true confirmed e f fs = inl ((e, refl), refl)
    overridden_with false true e f fs = inl ((f, refl), refl)
    overridden_with false false e f (true ∷ fs) = inl ((database, refl), refl)
    overridden_with false false e f [] = found_with (find_action id w.tables) [] refl
    overridden_with false false e f (false ∷ fs) = found_with (find_action id w.tables) fs refl

-- Whatever statements fail, an override through the form either returns an error and changes no
-- table, or the action was denied or escalated, is now approved, and the override has its entry in
-- the log.
pub override_action-RecordedOrNot :
    (P : Platform) (confirmed : Bool) (id reason : String) (w : World P.Number)
    → RecordedOrNot P id reason w (override_action P confirmed id reason w)
unfolding override_action
override_action-RecordedOrNot P confirmed id reason w =
    overridden_with P id reason w (trim reason == "") (not confirmed) _ _ w.faults
