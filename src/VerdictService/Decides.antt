-- ===== src/VerdictService/Decides.antt =====
-- What processing a pending action comes to when no statement fails.
use deko.Prelude.{
  ◌≡◌, refl, sym, ◌∙◌, ap, inl, inr, String, Bool, true, false, Option, none, some, List, [], ◌∷◌,
  ◌++◌, arith, string_eq, if◌then◌else◌,
}
use deko.Prelude.Int.{pos}
use mathlib.Core.Path.{subst}
use deko.Models.{Action, ActionStatus, processing, pending, Verdict}
use deko.Errors.{Result, ok, err, err-ne-ok}
use deko.Llm.{VerdictResult}
use deko.Injection.{InjectionResult, analyze}
use deko.Json.{object, text}
use deko.Platform.{Platform}
use deko.Audit.Record.{record_entry}
use deko.Audit.Steps.{Keeps-record_entry}
use deko.World.{World, M, select, statement, execute, require, pure, ◌>>=◌, continue}
use deko.World.Steps.{Keeps, IsStep}
use deko.World.Success.{Succeeded, Succeeds}
use deko.VerdictService.{Service, PolicyEvaluation}
use deko.VerdictService.Policies.{evaluate_policies}
use deko.VerdictService.Keeps.{Keeps-evaluate_policies}
use deko.VerdictService.Atomic.{save_verdict-atomic}
use deko.VerdictService.Success.{
  Succeeds-record_entry, Succeeds-evaluate_policies, Succeeds-try_llm_analysis,
  Succeeds-save_verdict,
}
use deko.VerdictService.Whole.{Keeps-try_llm_analysis}
use deko.VerdictService.Process.{
  status_of, set_status, set_status_at, find_action, save_verdict, policy_verdict,
  injection_verdict, ask_llm, scan, decide, process_pending_action, process_action, is_pending,
}

-- The actions, the verdicts and the time are the same.
abbrev pub SameCase : {N : Type 0} → World N → World N → Type 0
SameCase u v =
    (v.tables.actions ≡ u.tables.actions)
    × (v.tables.verdicts ≡ u.tables.verdicts)
    × (v.clock ≡ u.clock)

SameCase-IsStep : {N : Type 0} → IsStep (SameCase {N = N})
SameCase-IsStep = record {
  same = λ w fs n. (refl, refl, refl);
  trans = λ u v w (a, b, c) (d, e, f). (d ∙ a, e ∙ b, f ∙ c);
  back = λ u v (a, b, c). (refl, refl, c);
}

module _ (P : Platform) (id : String) where
  -- One verdict on the action is new, and the action has the status of its decision.
  abbrev pub IsDecided : World P.Number → World P.Number → Type 0
  IsDecided u v =
      (row : Verdict) × (v.tables.verdicts ≡ u.tables.verdicts ++ (row ∷ []))
      × (row.action_id ≡ id)
      × (v.tables.actions
          ≡ set_status_at id (status_of row.decision) (P.sqlite_time (pos u.clock))
              u.tables.actions)

  -- The call returns, no statement is going to fail, and the action is decided.
  abbrev pub Decided : World P.Number → Result (Unit {0}) × World P.Number → Type 0
  Decided u (r, v) = (r ≡ ok tt) × (v.faults ≡ []) × IsDecided u v

  record Decides (m : M P.Number (Unit {0})) : Type 0 where
    at : (w : World P.Number) → w.faults ≡ [] → Decided w (m w)

  Decided-after :
      (u v : World P.Number) (o : Result (Unit {0}) × World P.Number)
      → SameCase u v
      → Decided v o
      → Decided u o
  Decided-after u v o (actions, verdicts, clock) (r, faults, (row, new, on, set)) = (
    r,
    faults,
    (
      row,
      new ∙ ap (λ vs. vs ++ (row ∷ [])) verdicts,
      on,
      set
          ∙ (ap
                (λ c.
                  set_status_at id (status_of row.decision) (P.sqlite_time (pos c))
                    v.tables.actions)
                clock
              ∙ ap
                  (λ xs. set_status_at id (status_of row.decision) (P.sqlite_time (pos u.clock)) xs)
                  actions),
    ),
  )

  module _ {A : Type 0} where
    continue-Decides :
        (f : A → M P.Number (Unit {0})) (r : Result A) (u v : World P.Number)
        → SameCase u v
        → Succeeded (r, v)
        → ((a : A) → Decides (f a))
        → Decided u (continue r f v)
    continue-Decides f (err e) u v same ((a, h), faults) k = absurd (err-ne-ok h)
    continue-Decides f (ok a) u v same (h, faults) k =
        Decided-after u v (f a v) same ((k a).at v faults)

    Decides-bind :
        (m : M P.Number A) (f : A → M P.Number (Unit {0}))
        → Keeps SameCase m
        → Succeeds m
        → ((a : A) → Decides (f a))
        → Decides (m >>= f)
    unfolding ◌>>=◌
    Decides-bind m f same succeeds k = record {
      at = λ w e. continue-Decides f (m w).0 w (m w).1 (same.at w) (succeeds.at w e) k;
    }

  Decides-if :
      (b : Bool) (m n : M P.Number (Unit {0}))
      → Decides m
      → Decides n
      → Decides (if b then m else n)
  Decides-if true m n km kn = km
  Decides-if false m n km kn = kn

  module _ (svc : Service P.F64) (action : Action) where
    Decides-save_verdict :
        (agent_id : String) (verdict : VerdictResult P.F64) (matched : Option String)
        → Decides (save_verdict P svc id agent_id verdict matched)
    Decides-save_verdict agent_id verdict matched = record {
      at = λ w e.
          let ((a, h), faults) = (Succeeds-save_verdict P svc id agent_id verdict matched).at w e in
          elim (save_verdict-atomic P svc id agent_id verdict matched w) [
            | inl (failed, tables, broadcasts, webhooks) ↦ absurd (err-ne-ok (sym failed ∙ h))
            | inr stored ↦
                (h, faults, (_, ap (λ t. t.verdicts) stored, refl, ap (λ t. t.actions) stored))
          ];
    }

    Decides-ask_llm :
        (e : PolicyEvaluation) (r : InjectionResult) → Decides (ask_llm P svc id action e r)
    unfolding ask_llm
    Decides-ask_llm e r =
        Decides-bind _ _
          (Keeps-try_llm_analysis P SameCase SameCase-IsStep svc
            (λ w m healthy requests broadcasts webhooks. (refl, refl, refl))
            (λ w row action_id event_type details created_at. (refl, refl, refl)) action _)
          (Succeeds-try_llm_analysis P svc action _)
          (λ v. Decides-save_verdict action.agent_id v e.matched_policy_id)

    Decides-scan : (e : PolicyEvaluation) (r : InjectionResult) → Decides (scan P svc id action e r)
    unfolding scan
    Decides-scan e r =
        Decides-if _ _ _
          (Decides-bind _ _
            (Keeps-record_entry P SameCase SameCase-IsStep
              (λ w row action_id event_type details created_at. (refl, refl, refl)) _ _ _)
            (Succeeds-record_entry P _ _ _)
            (λ _.
              Decides-if _ _ _
                (Decides-save_verdict action.agent_id (injection_verdict P svc r) none)
                (Decides-ask_llm e r)))
          (Decides-ask_llm e r)

    Decides-decide : (e : PolicyEvaluation) → Decides (decide P svc id action e)
    unfolding decide
    Decides-decide e =
        Decides-if e.immediate_deny _ _
          (Decides-save_verdict action.agent_id (policy_verdict P svc e) e.matched_policy_id)
          (Decides-scan e (analyze P action.intent action.payload))

    set_status_at-set_status :
        (s t : ActionStatus) (now : String) (actions : List Action)
        → set_status_at id s now (set_status id t actions) ≡ set_status_at id s now actions
    unfolding set_status_at set_status
    set_status_at-set_status s t now [] = refl
    set_status_at-set_status s t now (a ∷ actions) =
        ground (arith, set_status_at-set_status s t now actions)

    -- What follows on the change of the status.
    abbrev after_start : M P.Number (Unit {0})
    after_start =
        record_entry P (some id) "processing_started" (object (("intent", text action.intent) ∷ []))
        >>= (λ _. evaluate_policies P svc action >>= decide P svc id action)

    Decides-after_start : Decides after_start
    Decides-after_start =
        Decides-bind _ _
          (Keeps-record_entry P SameCase SameCase-IsStep
            (λ w row action_id event_type details created_at. (refl, refl, refl)) _ _ _)
          (Succeeds-record_entry P _ _ _)
          (λ _.
            Decides-bind _ _
              (Keeps-evaluate_policies P SameCase SameCase-IsStep svc action
                (λ w row action_id event_type details created_at. (refl, refl, refl)))
              (Succeeds-evaluate_policies P svc action) Decides-decide)

    pending_with :
        (w : World P.Number)
        → Decided w (process_pending_action P svc id action (record w { faults = [] }))
    unfolding process_pending_action execute statement ◌>>=◌
    pending_with w =
        let marked : World P.Number = record w {
          faults = [];
          tables = record w.tables { actions = set_status id processing w.tables.actions };
        } in
        let (r, faults, (row, new, on, set)) = Decides-after_start.at marked refl in
        (r, faults, (row, new, on, set ∙ set_status_at-set_status _ _ _ _))

    process_with :
        (w : World P.Number) (fs : List Bool)
        → find_action id w.tables ≡ some action
        → action.status ≡ pending
        → fs ≡ []
        → Decided w (process_action P svc id (record w { faults = fs }))
    unfolding process_action select statement require pure ◌>>=◌
    process_with w (b ∷ fs) found waits none_fails = absurd (ground (arith, none_fails))
    process_with w [] found waits none_fails = rw found (
        subst
          (λ s. Decided w (
            (if is_pending P svc s then process_pending_action P svc id action else pure tt)
              (record w { faults = [] })))
          (sym waits) (pending_with w))

-- If no statement fails, processing an action that is pending returns, and it decides the action:
-- exactly one verdict is added, it is on this action, and the stored actions are those before, but
-- that this one has the status of the decision and the time of the change.
pub process_action-decides :
    (P : Platform) (svc : Service P.F64) (id : String) (w : World P.Number) (action : Action)
    → find_action id w.tables ≡ some action
    → action.status ≡ pending
    → w.faults ≡ []
    → let (r, v) = process_action P svc id w in (r ≡ ok tt) × (v.faults ≡ []) × IsDecided P id w v
process_action-decides P svc id w action found waits none_fails =
    process_with P id svc action w w.faults found waits none_fails
