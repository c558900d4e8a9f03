-- ===== src/VerdictService/Pending.antt =====
-- An action that is not pending, and one under a concurrency limit.
use deko.Prelude.{
  ◌&&◌, ap, ℕ, ◌≡◌, ◌≤◌, refl, String, Bool, true, false, not, Option, some, List, [], ◌∷◌, find,
  arith, ◌==◌, string_eq, if◌then◌else◌, unwrap_or,
}
use deko.Prelude.Int.{pos, leb_ℤ, ◌≤ℤ◌}
use deko.Json.{Value}
use deko.Models.{Action, processing, Policy, show_status}
use deko.Errors.{ok, not_found}
use deko.Platform.{Platform}
use deko.PolicyEngine.Rules.{integer}
use deko.World.{later, World, pure, select, statement, attempt, gets, require, ◌>>=◌}
use deko.VerdictService.{Service, PolicyEvaluation}
use deko.VerdictService.Limits.{concurrency_verdict, processing_actions, check_concurrency_limit}
use deko.VerdictService.Process.{
  set_status, find_action, is_pending, process_pending_action, process_action,
}

module _ (P : Platform) (svc : Service P.F64) (id : String) (action : Action) where
  skipped :
      (o : Option Action)
      → o ≡ some action
      → is_pending P svc action.status ≡ false
      → (w : World P.Number)
      → ((require (not_found "Action not found") o >>= λ a.
            if is_pending P svc a.status then process_pending_action P svc id a else pure tt)
          w).1
        ≡ w
  unfolding require pure ◌>>=◌
  skipped o e p w = rw (e, p)

  skip_with :
      (w : World P.Number) (fs : List Bool)
      → find_action id w.tables ≡ some action
      → is_pending P svc action.status ≡ false
      → (process_action P svc id (record w { faults = fs })).1 ≡ record w { faults = later fs }
  unfolding process_action select statement ◌>>=◌
  skip_with w (true ∷ fs) e p = refl
  skip_with w [] e p = skipped (find_action id w.tables) e p (record w { faults = [] })
  skip_with w (false ∷ fs) e p = skipped (find_action id w.tables) e p (record w { faults = fs })

-- Processing an action that is not pending changes nothing: no table, no metric, no broadcast.
pub process_action-skip :
    (P : Platform) (svc : Service P.F64) (id : String) (w : World P.Number) (action : Action)
    → find_action id w.tables ≡ some action
    → is_pending P svc action.status ≡ false
    → (process_action P svc id w).1 ≡ record w { faults = later w.faults }
process_action-skip P svc id w action e p = skip_with P svc id action w w.faults e p

processing_actions-set_status :
    (id agent_id : String) (actions : List Action) (action : Action)
    → find (λ a. a.id == id) actions ≡ some action
    → action.agent_id ≡ agent_id
    → 1 ≤ processing_actions agent_id (set_status id processing actions)
unfolding processing_actions set_status show_status
processing_actions-set_status id agent_id [] action f g = absurd (ground arith)
processing_actions-set_status id agent_id (a ∷ actions) action f g =
    ground (arith, processing_actions-set_status id agent_id actions action)

module _ (P : Platform) (svc : Service P.F64) (action : Action) (context : String)
    (policy : Policy P.Number) (rule : Value P.Number) where
  limit_reached :
      (n : ℕ)
      → svc.is_dry_run ≡ false
      → unwrap_or (integer P "max_simultaneous" rule) (pos 1) ≤ℤ pos 1
      → 1 ≤ n
      → (e : PolicyEvaluation) × (concurrency_verdict P svc action context policy rule n ≡ some e)
        × (e.immediate_deny ≡ true)
  limit_reached n d m h =
      let reached : (leb_ℤ (unwrap_or (integer P "max_simultaneous" rule) (pos 1)) (pos n)
            && not svc.is_dry_run)
          ≡ true =
        ground arith in
      rw reached (_, refl, refl)

-- A `concurrency_limit` rule counts the action that is being processed: with a limit of one, the
-- default, it denies every action, even if the agent has no other.
pub check_concurrency_limit_self :
    (P : Platform) (svc : Service P.F64) (action : Action) (context : String)
    (policy : Policy P.Number) (rule : Value P.Number) (w : World P.Number)
    → find_action action.id w.tables ≡ some action
    → svc.is_dry_run ≡ false
    → unwrap_or (integer P "max_simultaneous" rule) (pos 1) ≤ℤ pos 1
    → (e : PolicyEvaluation) × ((check_concurrency_limit P svc action context policy rule
          (record w {
            faults = [];
            tables = record w.tables { actions = set_status action.id processing w.tables.actions };
          })).0
        ≡ ok (some e))
      × (e.immediate_deny ≡ true)
unfolding check_concurrency_limit attempt select statement gets pure ◌>>=◌ find_action
check_concurrency_limit_self P svc action context policy rule w f d m =
    let (e, h, deny) =
      limit_reached P svc action context policy rule _ d m
        (processing_actions-set_status action.id action.agent_id w.tables.actions action f refl) in
    (e, ap (λ o. ok o) h, deny)
