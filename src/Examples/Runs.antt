-- ===== src/Examples/Runs.antt =====
-- A run of the program: a submission, two rounds of the processor, an override and a revocation.
use deko.Prelude.{◌≡◌, refl, true, false, none, List, [], ◌∷◌}
use deko.Audit.Chain.{verify_chain}
use deko.System.{Op, submit, process, override_api, revoke, log_in, run}
use deko.System.Ledger.{ledger_of, PostsAll, run-PostsAll}
use deko.System.History.{IsPrefix, run-ledger}
use deko.Examples.Access.{at_noon, an_agent, guarded_world, a_submission}
use deko.Examples.Verdicts.{a_service}

abbrev some_ops : List (Op at_noon.Number at_noon.F64)
some_ops =
    submit "" an_agent (a_submission none)
    ∷ process a_service (λ n. false) 3600 10
    ∷ override_api "a1" "denied" "not today"
    ∷ log_in "root"
    ∷ revoke "root" "g1" none
    ∷ process a_service (λ n. false) 3600 10
    ∷ []

run-PostsAll_example :
    PostsAll at_noon (ledger_of guarded_world) (ledger_of (run at_noon some_ops guarded_world))
run-PostsAll_example = run-PostsAll at_noon some_ops guarded_world

run-ledger_example :
    let v = run at_noon some_ops guarded_world in
    IsPrefix (ledger_of guarded_world).submissions (ledger_of v).submissions
    × IsPrefix guarded_world.tables.verdicts v.tables.verdicts
    × IsPrefix guarded_world.tables.audit_log v.tables.audit_log
    × ((verify_chain at_noon v.tables.audit_log).valid ≡ true)
unfolding verify_chain
run-ledger_example = run-ledger at_noon some_ops guarded_world refl
