-- ===== src/Processor/Audited.antt =====
-- The audit log under a round of the processor.
use deko.Prelude.{ℕ, ◌≡◌, Bool, true, List, ◌++◌}
use deko.Platform.{Platform}
use deko.Audit.Chain.{AuditRow, verify_chain}
use deko.World.{World}
use deko.VerdictService.{Service}
use deko.VerdictService.Log.{
  LogGrows, LogGrows-IsStep, LogGrows-AllowsEntry, Appends-refl, ChainFrom_of_Appends,
}
use deko.Processor.{round}
use deko.System.Rules.{Allows}
use deko.System.Services.{Keeps-round}

LogGrows-Allows : (P : Platform) → Allows P (LogGrows P) (LogGrows-IsStep P)
LogGrows-Allows P = record {
  entry = LogGrows-AllowsEntry P;
  memory = λ w m healthy requests broadcasts webhooks. Appends-refl P w.tables.audit_log;
  statuses = λ w actions same. Appends-refl P w.tables.audit_log;
  verdict = λ w v. Appends-refl P w.tables.audit_log;
  action = λ w a fresh. Appends-refl P w.tables.audit_log;
  accounts = λ w agents keys sessions policies. Appends-refl P w.tables.audit_log;
  relays = λ w requests. Appends-refl P w.tables.audit_log;
}

-- A round of the processor, with any faults and at any point of a shutdown, only adds entries behind
-- the audit log, and a log that verifies before verifies after.
pub round-log :
    (P : Platform) (svc : Service P.F64) (shutdown : ℕ → Bool) (ttl batch_size : ℕ)
    (w : World P.Number)
    → (verify_chain P w.tables.audit_log).valid ≡ true
    → let log = (round P svc shutdown ttl batch_size w).1.tables.audit_log in
      ((rows : List AuditRow) × (log ≡ w.tables.audit_log ++ rows))
      × ((verify_chain P log).valid ≡ true)
round-log P svc shutdown ttl batch_size w v =
    let h =
      (Keeps-round P (LogGrows P) (LogGrows-IsStep P) (LogGrows-Allows P) svc shutdown ttl
          batch_size).at
        w in
    ((h.rows, h.appended), ChainFrom_of_Appends P _ _ h v)
