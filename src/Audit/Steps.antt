-- ===== src/Audit/Steps.antt =====
-- What writing an entry leaves of a world: a relation that an entry behind the head of the log
-- respects is respected by `insert_chained_tx` and `record_entry`.
use deko.Prelude.{◌+◌, String, Option, [], ◌∷◌, ◌++◌, Bool-cases, inl, inr}
use deko.Prelude.Int.{pos}
use deko.Json.{Value}
use deko.Platform.{Platform}
use deko.Audit.Chain.{AuditRow, current_head, chained_row}
use deko.Audit.Record.{insert_chained_tx, record_entry}
use deko.World.{World, fails, later, select, gets, draw, execute, statement, ◌>>=◌}
use deko.World.Steps.{Keeps, IsStep, Keeps-transaction}

-- `w` with one entry more in its log.
abbrev pub with_entry : {N : Type 0} → World N → AuditRow → World N
with_entry w row = record w {
  tables = record w.tables { audit_log = w.tables.audit_log ++ (row ∷ []) };
}

module _ (P : Platform) (R : World P.Number → World P.Number → Type 0) (S : IsStep R) where
  -- The entry is chained to the head of the log of `w`.
  abbrev pub AllowsEntry : Type 0
  AllowsEntry =
      (w : World P.Number) (id : String) (action_id : Option String)
      (event_type details created_at : String)
      → R w (
          with_entry w (
            chained_row P (current_head w.tables.audit_log) id action_id event_type details
              created_at))

  module _ (allowed : AllowsEntry) (action_id : Option String) (event_type : String)
      (details : Value P.Number) where
    pub Keeps-insert_chained_tx : Keeps R (insert_chained_tx P action_id event_type details)
    unfolding insert_chained_tx select statement gets draw execute ◌>>=◌
    Keeps-insert_chained_tx = record {
      at = λ w. elim (Bool-cases (fails w.faults)) [
        | inl first ↦ rw first (S.same w (later w.faults) w.uuids)
        | inr first ↦ elim (Bool-cases (fails (later w.faults))) [
          | inl second ↦ rw (first, second) (S.same w (later (later w.faults)) (w.uuids + 1))
          | inr second ↦
              rw (first, second)
                (S.trans w _ _
                  (allowed w (P.uuid w.uuids) action_id event_type (P.print details)
                    (P.sqlite_time (pos w.clock)))
                  (S.same (with_entry w _) (later (later w.faults)) (w.uuids + 1)))
        ]
      ];
    }

    pub Keeps-record_entry : Keeps R (record_entry P action_id event_type details)
    unfolding record_entry
    Keeps-record_entry =
        Keeps-transaction R S (insert_chained_tx P action_id event_type details)
          Keeps-insert_chained_tx
