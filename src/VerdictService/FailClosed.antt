-- ===== src/VerdictService/FailClosed.antt =====
-- What has to hold before an action gets a verdict that is no denial.
use mathlib.Core.List.{append-nil, append_assoc}
use mathlib.Core.Path.{subst}
use deko.Prelude.{
  if◌then◌else◌, Bool-cases, ◌≡◌, refl, sym, ap, ◌∙◌, ◌⊎◌, inl, inr, String, Bool, true, false,
  Option, none, some, List, [], ◌∷◌, ◌++◌, All, All-append, any, arith,
}
use deko.Models.{Action, Verdict, VerdictDecision, denied, processing}
use deko.Errors.{Result, ok, err, ok-injective, not_found}
use deko.Llm.{VerdictResult}
use deko.Injection.{
  injection_context, MatchedPattern, is_critical, injection_patterns, all_matches, is_some_match,
  analyze,
}
use deko.Platform.{Platform}
use deko.Audit.Steps.{Keeps-record_entry}
use deko.Json.{object, text}
use deko.Audit.Record.{record_entry}
use deko.World.{M, pure, later, continue, execute, World, select, statement, require, ◌>>=◌}
use deko.World.Steps.{
  Keeps, IsStep, Returns, Keeps-bind, Keeps-bind-Returns, Keeps-execute, Keeps-if,
}
use deko.VerdictService.{Service, PolicyEvaluation}
use deko.VerdictService.Policies.{evaluate_policies}
use deko.VerdictService.Keeps.{Keeps-evaluate_policies}
use deko.VerdictService.Analysis.{try_llm_analysis}
use deko.VerdictService.Decision.{AnsweredBy, RestsOn, try_llm_analysis-first}
use deko.VerdictService.Process.{
  has_critical, llm_context, set_status, policy_verdict, injection_verdict, save_verdict, ask_llm,
  scan, decide, process_pending_action, process_action, find_action, is_pending,
}
use deko.VerdictService.Whole.{Keeps-try_llm_analysis, Keeps-save_verdict}

module _ (P : Platform) (svc : Service P.F64) (action : Action) where
  -- The context of the question to the models.
  abbrev pub context_of : PolicyEvaluation → String
  context_of e =
      llm_context P svc (injection_context (analyze P action.intent action.payload)) e.context

  -- What is done between the look-up of the action and the policies.
  abbrev pub start_processing : String → M P.Number (Unit {0})
  start_processing id =
      execute (λ t. record t { actions = set_status id processing t.actions }) >>= (λ _.
        record_entry P (some id) "processing_started"
          (object (("intent", text action.intent) ∷ [])))

  -- The evaluation of the policies that processing makes: in the world that the start leaves, behind
  -- the statement of the look-up.
  abbrev pub evaluation : String → World P.Number → Result PolicyEvaluation
  evaluation id w =
      (evaluate_policies P svc action
        (start_processing id (record w { faults = later w.faults })).1).0

module _ (P : Platform) (svc : Service P.F64) (action : Action) (ev : Result PolicyEvaluation) where
  -- A decision that is a denial; or the evaluation `ev` has nothing to deny, the text holds no
  -- critical injection, and the decision is that of the first provider that answers.
  abbrev pub IsJustified : VerdictDecision → Type 0
  IsJustified d =
      (d ≡ denied)
      ⊎ ((e : PolicyEvaluation) × (ev ≡ ok e)
          × (e.immediate_deny ≡ false)
          × (has_critical P svc (analyze P action.intent action.payload) ≡ false)
          × AnsweredBy P svc action (context_of P svc action e) d svc.providers)

  -- The new verdicts are justified.
  abbrev pub OnlyJustified : World P.Number → World P.Number → Type 0
  OnlyJustified u v =
      (rows : List Verdict) × (v.tables.verdicts ≡ u.tables.verdicts ++ rows)
      × All (λ r. IsJustified r.decision) rows

  no_verdict :
      (vs : List Verdict)
      → (rows : List Verdict) × (vs ≡ vs ++ rows) × All (λ r. IsJustified r.decision) rows
  no_verdict vs = ([], sym (append-nil vs), tt)

  OnlyJustified-IsStep : IsStep OnlyJustified
  OnlyJustified-IsStep = record {
    same = λ w fs n. no_verdict w.tables.verdicts;
    trans = λ u v w (xs, e, h) (ys, f, k). (
      xs ++ ys,
      f ∙ (ap (λ vs. vs ++ ys) e ∙ append_assoc u.tables.verdicts xs ys),
      All-append (λ r. IsJustified r.decision) xs ys h k,
    );
    back = λ u v h. no_verdict u.tables.verdicts;
  }

  module _ (id : String) where
    Keeps-save_justified :
        (agent_id : String) (verdict : VerdictResult P.F64) (matched : Option String)
        → IsJustified verdict.decision
        → Keeps OnlyJustified (save_verdict P svc id agent_id verdict matched)
    Keeps-save_justified agent_id verdict matched j =
        Keeps-save_verdict P OnlyJustified OnlyJustified-IsStep svc
          (λ w m healthy requests broadcasts webhooks. no_verdict w.tables.verdicts)
          (λ w row action_id event_type details created_at. no_verdict w.tables.verdicts) id
          (λ w s now. no_verdict w.tables.verdicts) agent_id verdict matched
          (λ w v same dec. (v ∷ [], refl, (subst IsJustified (sym dec) j, tt)))

    Returns-try_llm_analysis :
        (context : String)
        → Returns
            (RestsOn P svc action context svc.providers)
            (try_llm_analysis P svc action context)
    Returns-try_llm_analysis context = record {
      value = λ w a e.
          let (v, r, h) = try_llm_analysis-first P svc action context w in
          subst (RestsOn P svc action context svc.providers) (ok-injective (sym r ∙ e)) h;
    }

    Keeps-ask_justified :
        (e : PolicyEvaluation)
        → ev ≡ ok e
        → e.immediate_deny ≡ false
        → has_critical P svc (analyze P action.intent action.payload) ≡ false
        → Keeps OnlyJustified (ask_llm P svc id action e (analyze P action.intent action.payload))
    unfolding ask_llm
    Keeps-ask_justified e same pass safe =
        Keeps-bind-Returns OnlyJustified OnlyJustified-IsStep _ _ _
          (Keeps-try_llm_analysis P OnlyJustified OnlyJustified-IsStep svc
            (λ w m healthy requests broadcasts webhooks. no_verdict w.tables.verdicts)
            (λ w row action_id event_type details created_at. no_verdict w.tables.verdicts) action
            _)
          (Returns-try_llm_analysis _)
          (λ v h. Keeps-save_justified action.agent_id v e.matched_policy_id (elim h [
            | inl answered ↦ inr (e, same, pass, safe, answered)
            | inr (exhausted, d) ↦ inl d
          ]))

    empty_safe :
        (ps : List MatchedPattern)
        → is_some_match P ps ≡ false
        → any (λ p. is_critical p.severity) ps ≡ false
    empty_safe [] h = refl
    empty_safe (p ∷ ps) h = absurd (ground arith)

    undetected_safe :
        (analyze P action.intent action.payload).detected ≡ false
        → has_critical P svc (analyze P action.intent action.payload) ≡ false
    unfolding analyze
    undetected_safe h = empty_safe (all_matches P _ injection_patterns) h

    Keeps-scan_justified :
        (e : PolicyEvaluation)
        → ev ≡ ok e
        → e.immediate_deny ≡ false
        → Keeps OnlyJustified (scan P svc id action e (analyze P action.intent action.payload))
    unfolding scan injection_verdict
    Keeps-scan_justified e same pass =
        Keeps-if OnlyJustified OnlyJustified-IsStep _ _ _
          (λ found.
            Keeps-bind OnlyJustified OnlyJustified-IsStep _ _
              (Keeps-record_entry P OnlyJustified OnlyJustified-IsStep
                (λ w row action_id event_type details created_at. no_verdict w.tables.verdicts) _ _
                _)
              (λ _.
                Keeps-if OnlyJustified OnlyJustified-IsStep _ _ _
                  (λ critical. Keeps-save_justified action.agent_id _ none (inl refl))
                  (λ safe. Keeps-ask_justified e same pass safe)))
          (λ clean. Keeps-ask_justified e same pass (undetected_safe clean))

    Keeps-decide_justified :
        (e : PolicyEvaluation) → ev ≡ ok e → Keeps OnlyJustified (decide P svc id action e)
    unfolding decide policy_verdict
    Keeps-decide_justified e same =
        Keeps-if OnlyJustified OnlyJustified-IsStep _ _ _
          (λ deny. Keeps-save_justified action.agent_id _ e.matched_policy_id (inl refl))
          (λ passed. Keeps-scan_justified e same passed)

    Keeps-start : Keeps OnlyJustified (start_processing P svc action id)
    Keeps-start =
        Keeps-bind OnlyJustified OnlyJustified-IsStep _ _
          (Keeps-execute OnlyJustified OnlyJustified-IsStep _ (λ w. no_verdict w.tables.verdicts))
          (λ _.
            Keeps-record_entry P OnlyJustified OnlyJustified-IsStep
              (λ w row action_id event_type details created_at. no_verdict w.tables.verdicts) _ _ _)

    Keeps-evaluation : Keeps OnlyJustified (evaluate_policies P svc action)
    Keeps-evaluation =
        Keeps-evaluate_policies P OnlyJustified OnlyJustified-IsStep svc action
          (λ w row action_id event_type details created_at. no_verdict w.tables.verdicts)

    -- What follows on the start, in the world where the evaluation is `ev`.
    decided :
        (u v : World P.Number) (r : Result PolicyEvaluation)
        → ev ≡ r
        → OnlyJustified u v
        → OnlyJustified u (continue r (decide P svc id action) v).1
    decided u v (err x) same h = h
    decided u v (ok e) same h =
        OnlyJustified-IsStep.trans u v (decide P svc id action e v).1 h
          ((Keeps-decide_justified e same).at v)

    started :
        (w u : World P.Number) (r : Result (Unit {0}))
        → OnlyJustified w u
        → (evaluate_policies P svc action u).0 ≡ ev
        → OnlyJustified w
            (continue r (λ _. evaluate_policies P svc action >>= decide P svc id action) u).1
    unfolding ◌>>=◌
    started w u (err x) h same = h
    started w u (ok a) h same =
        let (r, v) = evaluate_policies P svc action u in
        decided w v r (sym same) (OnlyJustified-IsStep.trans w u v h (Keeps-evaluation.at u))

continue_assoc :
    {N A B C : Type 0} (f : A → M N B) (g : B → M N C) (r : Result A) (w : World N)
    → (continue r (λ a. f a >>= g) w) ≡ (continue (continue r f w).0 g (continue r f w).1)
unfolding ◌>>=◌
continue_assoc f g (ok a) w = refl
continue_assoc f g (err e) w = refl

module _ (P : Platform) (svc : Service P.F64) (action : Action) (id : String) where
  -- The new verdicts, with the evaluation that was made.
  abbrev Justified : World P.Number → World P.Number → Type 0
  Justified w v = OnlyJustified P svc action (evaluation P svc action id w) w v

  pending-Justified :
      (w : World P.Number)
      → Justified w
          (process_pending_action P svc id action (record w { faults = later w.faults })).1
  unfolding process_pending_action ◌>>=◌
  pending-Justified w =
      let w' = record w { faults = later w.faults } in
      subst (λ o. Justified w o.1)
        (sym (
          continue_assoc
            (λ _.
              record_entry P (some id) "processing_started"
                (object (("intent", text action.intent) ∷ [])))
            (λ _. evaluate_policies P svc action >>= decide P svc id action)
            (execute (λ t. record t { actions = set_status id processing t.actions }) w').0
            (execute (λ t. record t { actions = set_status id processing t.actions }) w').1))
        (started P svc action (evaluation P svc action id w) id w'
          (start_processing P svc action id w').1 (start_processing P svc action id w').0
          ((Keeps-start P svc action (evaluation P svc action id w) id).at w') refl)

  looked_up :
      (w : World P.Number) (o : Option Action)
      → o ≡ some action
      → Justified w
          ((require (not_found "Action not found") o >>= λ a.
              if is_pending P svc a.status then process_pending_action P svc id a else pure tt)
            (record w { faults = later w.faults })).1
  unfolding require pure ◌>>=◌
  looked_up w o e = elim (Bool-cases (is_pending P svc action.status)) [
    | inl is ↦ rw (e, is) (pending-Justified w)
    | inr other ↦
        rw (e, other) (no_verdict P svc action (evaluation P svc action id w) w.tables.verdicts)
  ]

  -- By the outcome of the first statement, the look-up.
  process_with :
      (w : World P.Number) (fs : List Bool)
      → find_action id w.tables ≡ some action
      → OnlyJustified P svc action
          (evaluation P svc action id (record w { faults = fs }))
          w
          (process_action P svc id (record w { faults = fs })).1
  unfolding process_action select statement ◌>>=◌
  process_with w (true ∷ fs) e = no_verdict P svc action _ w.tables.verdicts
  process_with w [] e = looked_up (record w { faults = [] }) (find_action id w.tables) e
  process_with w (false ∷ fs) e =
      looked_up (record w { faults = false ∷ fs }) (find_action id w.tables) e

-- Whatever statements fail, every verdict that processing an action adds is a denial; or the
-- policies, evaluated in the world in which processing evaluates them, had nothing to deny, the
-- intent and the payload match no critical injection pattern, and the decision is that of the first
-- provider that answers, with the context of that evaluation.
pub process_action-fail_closed :
    (P : Platform) (svc : Service P.F64) (id : String) (w : World P.Number) (action : Action)
    → find_action id w.tables ≡ some action
    → (rows : List Verdict) × ((process_action P svc id w).1.tables.verdicts
        ≡ w.tables.verdicts ++ rows)
      × All (λ r. IsJustified P svc action (evaluation P svc action id w) r.decision) rows
process_action-fail_closed P svc id w action e = process_with P svc action id w w.faults e
