-- ===== src/VerdictService/Atomic.antt =====
-- What `save_verdict` stores.
use deko.Prelude.{
  ◌+◌, ◌≡◌, refl, ◌∙◌, ◌⊎◌, inl, inr, String, Bool, true, false, Option, some, List, [], ◌∷◌, ◌++◌,
  arith,
}
use deko.Prelude.Int.{pos}
use deko.Json.{object, text}
use deko.Errors.{Result, ok, err, database}
use deko.Llm.{VerdictResult}
use deko.Platform.{Platform}
use deko.Audit.Chain.{current_head, chained_row}
use deko.Audit.Record.{insert_chained_tx}
use deko.World.{
  World, Tables, M, gets, draw, update, select, execute, statement, transaction, ◌>>=◌, continue,
}
use deko.World.Steps.{Keeps, IsStep, Keeps-bind, Keeps-update}
use deko.VerdictService.Whole.{Keeps-notify, Keeps-notify_if_held}
use deko.VerdictService.{Service}
use deko.VerdictService.Process.{
  set_status_at, status_of, count_decision, verdict_row, verdict_members, store_verdict, notify,
  notify_if_held, save_verdict,
}

-- The tables stay as they are.
abbrev SameTables : {N : Type 0} → World N → World N → Type 0
SameTables u v = v.tables ≡ u.tables

SameTables-IsStep : {N : Type 0} → IsStep (SameTables {N = N})
SameTables-IsStep = record {
  same = λ w fs n. refl;
  trans = λ u v w h k. k ∙ h;
  back = λ u v h. refl;
}

module _ (P : Platform) (svc : Service P.F64) (verdict_id action_id : String)
    (verdict : VerdictResult P.F64) (matched : Option String) where
  -- The tables with the verdict, the status of its decision, and the entry of the log.
  abbrev pub with_verdict : String → String → Tables P.Number → Tables P.Number
  with_verdict entry_id now t = record t {
    verdicts = t.verdicts ++ (verdict_row P svc verdict_id action_id verdict matched now ∷ []);
    actions = set_status_at action_id (status_of verdict.decision) now t.actions;
    audit_log =
        t.audit_log
        ++ (chained_row P (current_head t.audit_log) entry_id (some action_id) "verdict_issued"
              (P.print
                (object (("verdict_id", text verdict_id) ∷ verdict_members P svc verdict matched)))
              now
            ∷ []);
  }

  -- A transaction whose block computes this either does nothing to the tables and fails, or stores
  -- all three and succeeds.
  abbrev pub AllOrNothing : World P.Number → Result (Unit {0}) × World P.Number → Type 0
  AllOrNothing w (r, w') =
      ((r ≡ err database)
        × (w'.tables ≡ w.tables)
        × (w'.broadcasts ≡ w.broadcasts)
        × (w'.webhooks ≡ w.webhooks))
      ⊎ ((r ≡ ok tt)
          × (w'.tables ≡ with_verdict (P.uuid w.uuids) (P.sqlite_time (pos w.clock)) w.tables))

  -- By the faults of the six statements: begin, the three writes and the read of the head between
  -- them, and commit.
  store_with :
      (w : World P.Number) (fs : List Bool)
      → AllOrNothing
          (record w { faults = fs })
          (transaction
            (store_verdict P svc verdict_id action_id verdict matched)
            (record w { faults = fs }))
  unfolding transaction store_verdict insert_chained_tx gets draw select execute statement ◌>>=◌
  store_with w [] = inr (refl, refl)
  store_with w (true ∷ fs) = inl (refl, refl, refl, refl)
  store_with w (false ∷ []) = inr (refl, refl)
  store_with w (false ∷ true ∷ fs) = inl (refl, refl, refl, refl)
  store_with w (false ∷ false ∷ []) = inr (refl, refl)
  store_with w (false ∷ false ∷ true ∷ fs) = inl (refl, refl, refl, refl)
  store_with w (false ∷ false ∷ false ∷ []) = inr (refl, refl)
  store_with w (false ∷ false ∷ false ∷ true ∷ fs) = inl (refl, refl, refl, refl)
  store_with w (false ∷ false ∷ false ∷ false ∷ []) = inr (refl, refl)
  store_with w (false ∷ false ∷ false ∷ false ∷ true ∷ fs) = inl (refl, refl, refl, refl)
  store_with w (false ∷ false ∷ false ∷ false ∷ false ∷ []) = inr (refl, refl)
  store_with w (false ∷ false ∷ false ∷ false ∷ false ∷ true ∷ fs) = inl (refl, refl, refl, refl)
  store_with w (false ∷ false ∷ false ∷ false ∷ false ∷ false ∷ fs) = inr (refl, refl)

  -- What is done behind the transaction.
  abbrev pub announce : String → M P.Number (Unit {0})
  announce agent_id = do
    _ ← notify_if_held P svc verdict.decision (notify P svc action_id agent_id verdict)
    let message = P.print (
        object (
          ("type", text "verdict")
          ∷ ("action_id", text action_id)
          ∷ ("agent_id", text agent_id)
          ∷ verdict_members P svc verdict matched))
    update (λ w. record w { broadcasts = w.broadcasts ++ (message ∷ []) })

  Keeps-announce : (agent_id : String) → Keeps SameTables (announce agent_id)
  Keeps-announce agent_id =
      Keeps-bind SameTables SameTables-IsStep _ _
        (Keeps-notify_if_held P SameTables SameTables-IsStep svc
          (λ w m healthy requests broadcasts webhooks. refl) verdict.decision _
          (Keeps-notify P SameTables SameTables-IsStep svc
            (λ w m healthy requests broadcasts webhooks. refl) action_id agent_id verdict))
        (λ _. Keeps-update SameTables SameTables-IsStep _ (λ w. refl))

  abbrev pub Outcome : World P.Number → Result (Unit {0}) × World P.Number → Type 0
  Outcome w (r, v) =
      ((r ≡ err database)
        × (v.tables ≡ w.tables)
        × (v.broadcasts ≡ w.broadcasts)
        × (v.webhooks ≡ w.webhooks))
      ⊎ (v.tables ≡ with_verdict (P.uuid w.uuids) (P.sqlite_time (pos w.clock)) w.tables)

  after_store :
      (agent_id : String) (w u : World P.Number) (r : Result (Unit {0}))
      → AllOrNothing w (r, u)
      → Outcome w (continue r (λ _. announce agent_id) u)
  after_store agent_id w u (err e) (inl h) = inl h
  after_store agent_id w u (err e) (inr (h, t)) = absurd (ground arith)
  after_store agent_id w u (ok a) (inl h) = absurd (ground arith)
  after_store agent_id w u (ok a) (inr (h, t)) = inr ((Keeps-announce agent_id).at u ∙ t)

-- Whatever statements fail, a verdict, the status of its action and the entry of the log are stored
-- together; or none of the three is, the call returns the database error, and nothing is broadcast
-- or sent to a webhook.
pub save_verdict-atomic :
    (P : Platform) (svc : Service P.F64) (action_id agent_id : String)
    (verdict : VerdictResult P.F64) (matched : Option String) (w : World P.Number)
    → let (r, v) = save_verdict P svc action_id agent_id verdict matched w in
      ((r ≡ err database)
        × (v.tables ≡ w.tables)
        × (v.broadcasts ≡ w.broadcasts)
        × (v.webhooks ≡ w.webhooks))
      ⊎ (v.tables
          ≡ with_verdict P svc
              (P.uuid w.uuids)
              action_id
              verdict
              matched
              (P.uuid (w.uuids + 1))
              (P.sqlite_time (pos w.clock))
              w.tables)
unfolding save_verdict draw update ◌>>=◌
save_verdict-atomic P svc action_id agent_id verdict matched w =
    let w' : World P.Number = record w {
      uuids = w.uuids + 1;
      metrics = count_decision verdict.decision w.metrics;
    } in
    after_store P svc (P.uuid w.uuids) action_id verdict matched agent_id w' _ _
      (store_with P svc (P.uuid w.uuids) action_id verdict matched w' w.faults)
