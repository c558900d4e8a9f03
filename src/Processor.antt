-- ===== src/Processor.antt =====
-- services/processor.rs: one round of `run`, which expires old pending actions and then processes a
-- batch of those that are due. `shutdown` says what the flag reads before each action.
pub mod Batch
pub mod Audited
pub mod Settled
use deko.Prelude.{
  ℕ, suc, ◌-◌, ◌^◌, ltb, String, Bool, true, false, ◌&&◌, ◌||◌, Option, none, some, List, [], ◌∷◌,
  map, keep, take, order_by, ◌==◌, string_eq, if◌then◌else◌,
}
use deko.Prelude.Int.{ℤ, pos, negsuc, ltb_ℤ, eqb_ℤ, ◌-ℤ◌}
use deko.Prelude.Text.{leb_text, ltb_text}
use deko.Models.{Action, ActionStatus, denied}
use deko.Platform.{Platform}
use deko.World.{World, Tables, M, pure, select, execute, attempt, gets, ◌>>=◌, ◌>>◌}
use deko.VerdictService.{Service}
use deko.VerdictService.Limits.{has_status}
use deko.VerdictService.Policies.{starts}
use deko.VerdictService.Process.{process_action, set_status_at}

-- `n as i64` of a `u64`
abbrev pub as_i64 : ℕ → ℤ
as_i64 n = if ltb n (2 ^ 63) then pos n else negsuc (2 ^ 64 - 1 - n)

unfoldable pub expire_before : String → String → List Action → List Action
expire_before cutoff now actions =
    map
      (λ a.
        if has_status "pending" a && ltb_text a.created_at cutoff
        then record a { status = denied; updated_at = now }
        else a)
      actions

-- Pending, and its time has come.
abbrev pub is_due : String → Action → Bool
is_due now a = has_status "pending" a && starts a.execute_at now

-- `ORDER BY priority ASC, created_at ASC`
abbrev pub sooner : Action → Action → Bool
sooner a b =
    ltb_ℤ a.priority b.priority
    || (eqb_ℤ a.priority b.priority && leb_text a.created_at b.created_at)

unfoldable pub due_actions : ℕ → String → List Action → List Action
unfolding order_by
due_actions batch_size now actions = take batch_size (order_by sooner (keep (is_due now) actions))

module _ (P : Platform) (svc : Service P.F64) where
  open P use {Number, sqlite_time}

  -- An error is dropped.
  unfoldable pub expire_stale_actions : ℕ → M Number (Option (Unit {0}))
  unfolding expire_before
  expire_stale_actions action_ttl_secs = do
    now ← gets (λ w. w.clock)
    let cutoff = sqlite_time (pos now -ℤ as_i64 action_ttl_secs)
    attempt (
        execute
          (λ t. record t { actions = expire_before cutoff (sqlite_time (pos now)) t.actions }))

  abbrev pub deny_failed : String → Option (Unit {0}) → M Number (Unit {0})
  deny_failed id (some done) = pure tt
  deny_failed id none = do
    now ← gets (λ w. sqlite_time (pos w.clock))
    execute (λ t. record t { actions = set_status_at id denied now t.actions })

  -- An action whose processing fails is denied.
  unfoldable pub process_one : String → M Number (Unit {0})
  unfolding set_status_at
  process_one id = do done ← attempt (process_action P svc id); deny_failed id done

  unfoldable pub process_ids : (ℕ → Bool) → ℕ → List String → M Number (Unit {0})
  unfolding process_one
  process_ids shutdown n [] = pure tt
  process_ids shutdown n (id ∷ ids) =
      if shutdown n then pure tt else process_one id >> process_ids shutdown (suc n) ids

  unfoldable pub process_pending : (ℕ → Bool) → ℕ → M Number (Unit {0})
  unfolding due_actions process_ids
  process_pending shutdown batch_size = do
    now ← gets (λ w. sqlite_time (pos w.clock))
    ids ← select (λ t. map (λ a. a.id) (due_actions batch_size now t.actions))
    process_ids shutdown 0 ids

  -- The body of the loop of `run`; an error is logged.
  unfoldable pub round : (ℕ → Bool) → ℕ → ℕ → M Number (Option (Unit {0}))
  unfolding expire_stale_actions process_pending
  round shutdown action_ttl_secs batch_size =
      expire_stale_actions action_ttl_secs >> attempt (process_pending shutdown batch_size)
