-- ===== src/VerdictService/Log.antt =====
-- The audit log under the verdict service: entries are appended only, and each is chained to the
-- one before.
use mathlib.Core.Path.{subst}
use mathlib.Core.List.{append-nil, append_assoc}
use deko.Prelude.{◌≡◌, refl, sym, ◌∙◌, ap, String, Option, true, List, [], ◌∷◌, ◌++◌}
use deko.Platform.{Platform}
use deko.Audit.Chain.{
  AuditRow, genesis_hash, current_head, chained_row, compute_entry_hash, verify_from, verify_chain,
}
use deko.Audit.Verify.{
  ChainFrom, done, link, ChainFrom-append, ChainFrom-current_head, chained_row-Follows,
  verify_from_sound, verify_from_complete,
}
use deko.Audit.Steps.{AllowsEntry}
use deko.World.{World}
use deko.VerdictService.{Service}
use deko.VerdictService.Process.{process_action}
use deko.VerdictService.Whole.{Keeps-process_action}
use deko.World.Steps.{Keeps, IsStep}

module _ (P : Platform) where
  -- The second log is the first with entries behind it that are chained from its head.
  pub record Appends (old new : List AuditRow) : Type 0 where
    pub rows : List AuditRow
    pub appended : new ≡ old ++ rows
    pub linked :
        (head : String)
        → ChainFrom P genesis_hash old head
        → (end : String) × ChainFrom P head rows end

  abbrev pub LogGrows : World P.Number → World P.Number → Type 0
  LogGrows u v = Appends u.tables.audit_log v.tables.audit_log

  pub Appends-refl : (log : List AuditRow) → Appends log log
  Appends-refl log = record {
    rows = [];
    appended = sym (append-nil log);
    linked = λ head c. (head, done);
  }

  pub Appends-trans : (a b c : List AuditRow) → Appends a b → Appends b c → Appends a c
  Appends-trans a b c h k = record {
    rows = h.rows ++ k.rows;
    appended = k.appended ∙ (ap (λ xs. xs ++ k.rows) h.appended ∙ append_assoc a h.rows k.rows);
    linked = λ head d.
        let (middle, e) = h.linked head d in
        let (end, f) = k.linked middle (
          subst (λ xs. ChainFrom P genesis_hash xs middle) (sym h.appended)
            (ChainFrom-append P d e)) in
        (end, ChainFrom-append P e f);
  }

  pub LogGrows-IsStep : IsStep LogGrows
  LogGrows-IsStep = record {
    same = λ w fs n. Appends-refl w.tables.audit_log;
    trans = λ u v w h k. Appends-trans u.tables.audit_log v.tables.audit_log w.tables.audit_log h k;
    back = λ u v h. Appends-refl u.tables.audit_log;
  }

  pub Appends-chained_row :
      (log : List AuditRow) (id : String) (action_id : Option String)
      (event_type details created_at : String)
      → Appends log (
          log ++ (chained_row P (current_head log) id action_id event_type details created_at ∷ []))
  Appends-chained_row log id action_id event_type details created_at =
      let entry = compute_entry_hash P (current_head log) action_id event_type details created_at in
      let row = chained_row P (current_head log) id action_id event_type details created_at in
      let f = chained_row-Follows P (current_head log) id action_id event_type details created_at in
      record {
        rows = row ∷ [];
        appended = refl;
        linked = λ head c. (
          entry,
          subst (λ h. ChainFrom P h (row ∷ []) entry) (ChainFrom-current_head P c) (link f done),
        );
      }

  pub LogGrows-AllowsEntry : AllowsEntry P LogGrows LogGrows-IsStep
  LogGrows-AllowsEntry w = Appends-chained_row w.tables.audit_log

  pub LogGrows-Keeps :
      (svc : Service P.F64) (id : String) → Keeps LogGrows (process_action P svc id)
  LogGrows-Keeps svc id =
      Keeps-process_action P LogGrows LogGrows-IsStep svc
        (λ w m healthy requests broadcasts webhooks. Appends-refl w.tables.audit_log)
        LogGrows-AllowsEntry id (λ w s. Appends-refl w.tables.audit_log)
        (λ w s now. Appends-refl w.tables.audit_log)
        (λ d w v same dec. Appends-refl w.tables.audit_log)

  pub ChainFrom_of_Appends :
      (old new : List AuditRow)
      → Appends old new
      → (verify_chain P old).valid ≡ true
      → (verify_chain P new).valid ≡ true
  unfolding verify_chain
  ChainFrom_of_Appends old new h v =
      let (head, c) = verify_from_sound P genesis_hash 0 old v in
      let (end, d) = h.linked head c in
      subst (λ rows. (verify_from P genesis_hash 0 rows).valid ≡ true) (sym h.appended)
        (ap (λ r. r.valid) (verify_from_complete P 0 (ChainFrom-append P c d)))

-- Whatever statements fail, processing an action only adds entries behind the audit log, and a log
-- that verifies before verifies after.
pub process_action-log :
    (P : Platform) (svc : Service P.F64) (id : String) (w : World P.Number)
    → (verify_chain P w.tables.audit_log).valid ≡ true
    → let log = (process_action P svc id w).1.tables.audit_log in
      ((rows : List AuditRow) × (log ≡ w.tables.audit_log ++ rows))
      × ((verify_chain P log).valid ≡ true)
process_action-log P svc id w v =
    let h = (LogGrows-Keeps P svc id).at w in ((h.rows, h.appended), ChainFrom_of_Appends P _ _ h v)
