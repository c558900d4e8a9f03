-- ===== src/Examples/Routes.antt =====
-- A policy that is tried, stored and deleted, and an action that its agent reads.
use mathlib.Core.Option.{some-injective}
use deko.Prelude.{String, List, some, order_by, ◌≡◌, ◌⊎◌, ◌≢◌, refl, none, [], ◌∷◌, All, string_eq}
use deko.Json.{arr, cons, nil}
use deko.Models.{Policy, pending}
use deko.Audit.Record.{record_entry}
use deko.World.{transaction, draw, execute, World, pure, select, statement, gets, ◌>>=◌}
use deko.VerdictService.Policies.{active_policies, evaluate_policies, now_of}
use deko.VerdictService.{PolicyEvaluation}
use deko.Errors.{ok, err, database}
use deko.PolicyRoutes.{try_rules, record_deleted, delete_policy}
use deko.PolicyRoutes.Engine.{SameVerdict, counting_types, trial_of, evaluate_policies-try_rules}
use deko.PolicyRoutes.Deleted.{active_policies-delete_policy}
use deko.Examples.{test_platform}
use deko.Examples.Policy.{keyword_rule, All-differ}
use deko.Examples.Verdicts.{an_action, a_world, a_service, a_policy}
use deko.Examples.Access.{at_noon, guarded_world}

abbrev no_reading : Policy test_platform.Number
no_reading = record a_policy { rules = arr (cons (keyword_rule "read" 1) nil) }

abbrev read_world : World test_platform.Number
read_world = record (a_world pending) {
  tables = record (a_world pending).tables {
    policies = record { policy = no_reading; activate_at = none; deactivate_at = none } ∷ [];
  };
  faults = [];
}

All-some_differ :
    (s : String) (ks : List String) → All (λ k. s ≢ k) ks → All (λ k. some s ≢ some k) ks
All-some_differ s [] h = tt
All-some_differ s (k ∷ ks) (differ, h) =
    (λ e. differ (some-injective _ _ e), All-some_differ s ks h)

evaluate_policies-try_rules_example :
    ((evaluate_policies test_platform a_service (an_action pending) read_world).0 ≡ err database)
    ⊎ ((e : PolicyEvaluation) × ((evaluate_policies test_platform a_service
            (an_action pending)
            read_world).0
          ≡ ok e)
        × SameVerdict test_platform a_service
            (an_action pending)
            no_reading
            (try_rules test_platform
              (now_of 1700000000)
              (trial_of test_platform (an_action pending) no_reading))
            e)
unfolding active_policies order_by string_eq
evaluate_policies-try_rules_example =
    evaluate_policies-try_rules test_platform a_service (an_action pending) no_reading read_world
      refl refl refl refl
      (
        All-some_differ "deny_keyword" counting_types
            (All-differ "deny_keyword" counting_types refl),
        tt,
      )

abbrev ruled_world : World at_noon.Number
ruled_world = record guarded_world {
  tables = record guarded_world.tables {
    policies = record { policy = no_reading; activate_at = none; deactivate_at = none } ∷ [];
  };
}

active_policies-delete_policy_example :
    All (λ p. ◌≢◌ p.id "p1") (active_policies "" (delete_policy at_noon "p1" ruled_world).1.tables)
unfolding delete_policy record_deleted statement gets ◌>>=◌ string_eq record_entry transaction
    select draw execute pure
active_policies-delete_policy_example =
    active_policies-delete_policy at_noon "p1" ruled_world "p1" "" refl
