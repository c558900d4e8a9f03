-- ===== src/Processor/Settled.antt =====
-- A round in which no statement fails.
use deko.Prelude.{
  ℕ, suc, ◌≡◌, refl, sym, ◌∙◌, ap, inl, inr, String, Bool, true, false, none, some, List, [], ◌∷◌,
  find, map, All, arith, Bool-cases, Option-cases, ◌==◌, string_eq, ==_sound, if◌then◌else◌,
}
use deko.Prelude.Int.{pos, ◌-ℤ◌}
use mathlib.Core.Path.{subst}
use mathlib.Core.Option.{some-injective}
use deko.Models.{
  Action, ActionStatus, pending, processing, approved, denied, escalated, forwarded, forward_failed,
  VerdictDecision,
}
use deko.Errors.{Result, ok, err, err-ne-ok}
use deko.Platform.{Platform}
use deko.World.{
  World, raise, fails, select, statement, execute, attempt, gets, require, pure, dropped, ◌>>=◌,
  ◌>>◌, continue,
}
use deko.VerdictService.{Service}
use deko.VerdictService.Decides.{process_action-decides}
use deko.VerdictService.Tables.{actions_but, actions_but-set_status_at, process_action-frame}
use deko.VerdictService.Process.{status_of, set_status_at, find_action, process_action, is_pending}
use deko.Processor.{
  as_i64, expire_before, expire_stale_actions, due_actions, deny_failed, process_one, process_ids,
  process_pending, round,
}

module _ (P : Platform) (svc : Service P.F64) where
  -- The action with the id is pending.
  abbrev pub waits : String → List Action → Bool
  waits id [] = false
  waits id (a ∷ actions) = if a.id == id then is_pending P svc a.status else waits id actions

  decided_status : (d : VerdictDecision) → is_pending P svc (status_of d) ≡ false
  unfolding status_of
  decided_status VerdictDecision.approved = refl
  decided_status VerdictDecision.denied = refl
  decided_status VerdictDecision.escalate = refl

  pending_only : (s : ActionStatus) → is_pending P svc s ≡ true → s ≡ pending
  pending_only pending h = refl
  pending_only processing h = absurd (ground (arith, h))
  pending_only approved h = absurd (ground (arith, h))
  pending_only denied h = absurd (ground (arith, h))
  pending_only escalated h = absurd (ground (arith, h))
  pending_only forwarded h = absurd (ground (arith, h))
  pending_only forward_failed h = absurd (ground (arith, h))

  waits-set_status_at :
      (id : String) (s : ActionStatus) (now : String) (actions : List Action)
      → is_pending P svc s ≡ false
      → waits id (set_status_at id s now actions) ≡ false
  unfolding set_status_at
  waits-set_status_at id s now [] h = refl
  waits-set_status_at id s now (a ∷ actions) h =
      ground (arith, h, waits-set_status_at id s now actions h)

  waits-actions_but :
      (id j : String) (actions : List Action)
      → (id == j) ≡ false
      → waits j (actions_but id actions) ≡ waits j actions
  waits-actions_but id j [] h = refl
  waits-actions_but id j (a ∷ actions) h = ground (arith, h, waits-actions_but id j actions h)

  waits-missing :
      (id : String) (actions : List Action)
      → find (λ a. a.id == id) actions ≡ none
      → waits id actions ≡ false
  waits-missing id [] h = refl
  waits-missing id (a ∷ actions) h = ground (arith, h, waits-missing id actions)

  waits-found :
      (id : String) (actions : List Action) (action : Action)
      → find (λ a. a.id == id) actions ≡ some action
      → waits id actions ≡ is_pending P svc action.status
  waits-found id [] action h = absurd (ground (arith, h))
  waits-found id (a ∷ actions) action h = elim (Bool-cases (a.id == id)) [
    | inl same ↦ rw same (ap (λ x. is_pending P svc x.status) (some-injective _ _ (rw same at h)))
    | inr other ↦ rw other (waits-found id actions action (rw other at h))
  ]

  module _ (id : String) where
    -- The call returns, no statement is going to fail, and the action is not pending.
    abbrev Settled : Result (Unit {0}) × World P.Number → Type 0
    Settled (r, v) = (r ≡ ok tt) × (v.faults ≡ []) × (waits id v.tables.actions ≡ false)

    -- If the action is found: it is decided, or it was not pending.
    processed :
        (w : World P.Number) (fs : List Bool)
        → fs ≡ []
        → let (r, v) = process_action P svc id (record w { faults = fs }) in
          (v.faults ≡ []) × (r ≡ ok tt → waits id v.tables.actions ≡ false)
    unfolding process_action find_action select statement require pure raise ◌>>=◌
    processed w (b ∷ fs) e = absurd (ground (arith, e))
    processed w [] e = elim (Option-cases (find_action id w.tables)) [
      | inl missing ↦ rw missing (refl, λ h. absurd (err-ne-ok h))
      | inr (a, found) ↦ elim (Bool-cases (is_pending P svc a.status)) [
        | inl is ↦
            let (r, faults, (row, new, on, set)) =
              process_action-decides P svc id (record w { faults = [] }) a found
                (pending_only a.status is) refl in
            (
              faults,
              λ h.
                  subst (λ xs. waits id xs ≡ false) (sym set)
                    (waits-set_status_at id _ _ w.tables.actions (decided_status row.decision)),
            )
        | inr other ↦ rw (found, other) (refl, λ h. waits-found id w.tables.actions a found ∙ other)
      ]
    ]

    denied_after :
        (r : Result (Unit {0})) (v : World P.Number)
        → v.faults ≡ []
        → (r ≡ ok tt → waits id v.tables.actions ≡ false)
        → Settled (deny_failed P svc id (dropped r) v)
    unfolding gets execute statement pure ◌>>=◌
    denied_after (ok tt) v e h = (refl, e, h refl)
    denied_after (err x) v e h =
        rw e (refl, refl, waits-set_status_at id denied _ v.tables.actions refl)

    process_one-settles : (w : World P.Number) → w.faults ≡ [] → Settled (process_one P svc id w)
    unfolding process_one attempt ◌>>=◌
    process_one-settles w e =
        let (faults, settled) = processed w w.faults e in denied_after _ _ faults settled

    -- Other actions are left.
    others_after :
        (r : Result (Unit {0})) (v : World P.Number)
        → actions_but id (deny_failed P svc id (dropped r) v).1.tables.actions
          ≡ actions_but id v.tables.actions
    unfolding gets execute statement pure ◌>>=◌
    others_after (ok tt) v = refl
    others_after (err x) v = elim (Bool-cases (fails v.faults)) [
      | inl failed ↦ rw failed refl
      | inr passed ↦ rw passed (actions_but-set_status_at id denied _ v.tables.actions)
    ]

    others :
        (w : World P.Number)
        → actions_but id (process_one P svc id w).1.tables.actions ≡ actions_but id w.tables.actions
    unfolding process_one attempt ◌>>=◌
    others w =
        let (r, v) = process_action P svc id w in
        others_after r v ∙ (process_action-frame P svc id w).other_actions

    process_one-keeps :
        (j : String) (w : World P.Number)
        → w.faults ≡ []
        → waits j w.tables.actions ≡ false
        → waits j (process_one P svc id w).1.tables.actions ≡ false
    process_one-keeps j w e h = elim (Bool-cases (id == j)) [
      | inl same ↦
          subst (λ i. waits i (process_one P svc id w).1.tables.actions ≡ false)
            (==_sound id j same) (process_one-settles w e).2
      | inr other ↦
          sym (waits-actions_but id j _ other)
          ∙ (ap (waits j) (others w) ∙ (waits-actions_but id j w.tables.actions other ∙ h))
    ]

  module _ (shutdown : ℕ → Bool) (running : (n : ℕ) → shutdown n ≡ false) where
    -- The batch: its actions are not pending, and one that was not before is not after.
    abbrev BatchSettled : World P.Number → List String → Result (Unit {0}) × World P.Number → Type 0
    BatchSettled u ids (r, v) =
        (r ≡ ok tt)
        × All (λ id. waits id v.tables.actions ≡ false) ids
        × ((j : String) → waits j u.tables.actions ≡ false → waits j v.tables.actions ≡ false)

    next-Settled :
        (n : ℕ) (id : String) (ids : List String) (w : World P.Number) (r : Result (Unit {0}))
        (v : World P.Number)
        → Settled id (r, v)
        → ((j : String) → waits j w.tables.actions ≡ false → waits j v.tables.actions ≡ false)
        → (v.faults ≡ [] → BatchSettled v ids (process_ids P svc shutdown n ids v))
        → BatchSettled w (id ∷ ids) (continue r (λ _. process_ids P svc shutdown n ids) v)
    next-Settled n id ids w (err e) v (h, faults, settled) keeps rest = absurd (err-ne-ok h)
    next-Settled n id ids w (ok tt) v (h, faults, settled) keeps rest =
        let (r, all, after) = rest faults in
        (r, (after id settled, all), λ j before. after j (keeps j before))

    process_ids-settles :
        (n : ℕ) (ids : List String) (w : World P.Number)
        → w.faults ≡ []
        → BatchSettled w ids (process_ids P svc shutdown n ids w)
    unfolding process_ids pure ◌>>=◌
    process_ids-settles n [] w e = (refl, tt, λ j h. h)
    process_ids-settles n (id ∷ ids) w e =
        subst
          (λ b. BatchSettled w (id ∷ ids) (
            (if b then pure tt else process_one P svc id >> process_ids P svc shutdown (suc n) ids)
              w))
          (sym (running n))
          (next-Settled (suc n) id ids w (process_one P svc id w).0 (process_one P svc id w).1
            (process_one-settles id w e) (λ j. process_one-keeps id j w e)
            (process_ids-settles (suc n) ids _))

    process_pending-settles :
        (batch_size : ℕ) (w : World P.Number)
        → w.faults ≡ []
        → let ids =
            map
              (λ a. a.id)
              (due_actions batch_size (P.sqlite_time (pos w.clock)) w.tables.actions) in
          BatchSettled w ids (process_pending P svc shutdown batch_size w)
    unfolding process_pending gets select statement ◌>>=◌
    process_pending-settles batch_size w e =
        rw e (process_ids-settles 0 _ (record w { faults = [] }) refl)

-- The actions after the expiry of a round.
abbrev pub unexpired : (P : Platform) → ℕ → World P.Number → List Action
unexpired P action_ttl_secs w =
    expire_before (P.sqlite_time (pos w.clock -ℤ as_i64 action_ttl_secs))
      (P.sqlite_time (pos w.clock)) w.tables.actions

-- If no statement fails and the processor is not shut down, a round leaves no action of its batch
-- pending.
pub round-settles :
    (P : Platform) (svc : Service P.F64) (shutdown : ℕ → Bool) (action_ttl_secs batch_size : ℕ)
    (w : World P.Number)
    → ((n : ℕ) → shutdown n ≡ false)
    → w.faults ≡ []
    → let v = (round P svc shutdown action_ttl_secs batch_size w).1 in
      All
        (λ id. waits P svc id v.tables.actions ≡ false)
        (map
          (λ a. a.id)
          (due_actions batch_size (P.sqlite_time (pos w.clock)) (unexpired P action_ttl_secs w)))
unfolding round expire_stale_actions attempt execute gets statement ◌>>=◌
round-settles P svc shutdown action_ttl_secs batch_size w running e = rw e (
    (process_pending-settles P svc shutdown running batch_size
      (record w {
        faults = [];
        tables = record w.tables { actions = unexpired P action_ttl_secs w };
      })
      refl).1)
