-- ===== src/Audit/Record.antt =====
-- services/audit.rs: `insert_chained_tx` and `record`, which write one entry to the log.
use deko.Prelude.{String, Option, [], ◌∷◌, ◌++◌}
use deko.Prelude.Int.{pos}
use deko.Json.{Value}
use deko.Platform.{Platform}
use deko.Audit.Chain.{current_head, chained_row}
use deko.World.{M, select, gets, draw, execute, transaction, ◌>>=◌}

module _ (P : Platform) where
  open P use {Number, print, sqlite_time, uuid}

  unfoldable pub insert_chained_tx : Option String → String → Value Number → M Number (Unit {0})
  unfolding current_head chained_row
  insert_chained_tx action_id event_type details = do
    prev ← select (λ t. current_head t.audit_log)
    now ← gets (λ w. w.clock)
    n ← draw
    let row =
        chained_row P prev (uuid n) action_id event_type (print details) (sqlite_time (pos now))
    execute (λ t. record t { audit_log = t.audit_log ++ (row ∷ []) })

  unfoldable pub record_entry : Option String → String → Value Number → M Number (Unit {0})
  unfolding insert_chained_tx
  record_entry action_id event_type details =
      transaction (insert_chained_tx action_id event_type details)
