-- ===== src/Examples/Rounds.antt =====
-- A round of the processor without faults.
use deko.Prelude.{◌≡◌, refl, false, All, List, [], ◌∷◌, ◌++◌, map, order_by, string_eq}
use deko.Prelude.Int.{pos, ◌-ℤ◌}
use deko.Prelude.Text.{show_int, show_nat}
use deko.Errors.{ok}
use deko.Models.{Verdict, pending, show_status}
use deko.World.{World}
use deko.VerdictService.Process.{process_action, find_action}
use deko.VerdictService.Decides.{IsDecided, process_action-decides}
use deko.VerdictService.FailClosed.{IsJustified, evaluation, process_action-fail_closed}
use deko.Processor.{due_actions, expire_before, round}
use deko.Processor.Settled.{waits, unexpired, round-settles}
use deko.Examples.{test_platform}
use deko.Examples.Verdicts.{an_action, a_service, a_world}

abbrev calm_world : World test_platform.Number
calm_world = record (a_world pending) { faults = [] }

process_action-fail_closed_example :
    (rows : List Verdict) × ((process_action test_platform a_service "a1"
        calm_world).1.tables.verdicts
      ≡ [] ++ rows)
    × All
        (λ r.
          IsJustified test_platform a_service
            (an_action pending)
            (evaluation test_platform a_service (an_action pending) "a1" calm_world)
            r.decision)
        rows
unfolding find_action string_eq
process_action-fail_closed_example =
    process_action-fail_closed test_platform a_service "a1" calm_world (an_action pending) refl

process_action-decides_example :
    let (r, v) = process_action test_platform a_service "a1" calm_world in
    (r ≡ ok tt) × (v.faults ≡ []) × IsDecided test_platform "a1" calm_world v
unfolding find_action string_eq
process_action-decides_example =
    process_action-decides test_platform a_service "a1" calm_world (an_action pending) refl refl
      refl

-- The batch of the round below.
batch :
    map
      (λ a. a.id)
      (due_actions 10
        (test_platform.sqlite_time (pos 1700000000))
        (unexpired test_platform 3600 calm_world))
    ≡ "a1" ∷ []
unfolding due_actions expire_before order_by show_status string_eq show_int show_nat ◌-ℤ◌
batch = refl

round-settles_example :
    let v = (round test_platform a_service (λ n. false) 3600 10 calm_world).1 in
    All
      (λ id. waits test_platform a_service id v.tables.actions ≡ false)
      (map
        (λ a. a.id)
        (due_actions 10
          (test_platform.sqlite_time (pos 1700000000))
          (unexpired test_platform 3600 calm_world)))
round-settles_example =
    round-settles test_platform a_service (λ n. false) 3600 10 calm_world (λ n. refl) refl
