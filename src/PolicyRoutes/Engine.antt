-- ===== src/PolicyRoutes/Engine.antt =====
-- The trial of rules, and the same rules in the verdict service.
use mathlib.Core.Path.{subst}
use deko.Prelude.{
  ap, ◌∙◌, ◌≡◌, refl, String, ◌<>◌, true, false, ◌||◌, ◌⊎◌, inl, inr, Option, none, some, List, [],
  ◌∷◌, Bool-cases, Option-cases, ◌==◌, string_eq, arith, All, ◌≢◌,
}
use deko.Json.{Value, text_at}
use deko.Models.{Action, Policy}
use deko.Errors.{Result, ok, err, database}
use deko.Prelude.Int.{pos}
use deko.Prelude.Text.{join}
use deko.Platform.{Platform}
use deko.PolicyEngine.Rules.{Now}
use deko.PolicyEngine.Sorting.{sort_rules}
use deko.PolicyEngine.Evaluate.{evaluate_rule}
use deko.World.{
  select, statement, gets, fails, later, continue, World, pure, attempt, or_try, ◌>>=◌,
}
use deko.VerdictService.{Service, PolicyEvaluation}
use deko.VerdictService.Limits.{check_limit, limits_loop, check_limits, is_type}
use deko.VerdictService.Policies.{
  from_action, array_of, violation, rules_loop, now_of, active_policies, or_continue, policies_loop,
  then_limits, evaluate_policies,
}
use deko.PolicyRoutes.{Trial, TestPolicyRequest, trial_loop, try_rules, noted, no_match}

same_input :
    (a : Action)
    → a.target_method ≡ none
    → a.metadata ≡ none
    → from_action a ≡ record {
      intent = a.intent;
      payload = a.payload;
      target_url = a.target_url;
      target_method = none;
      metadata = none;
    }
same_input a method metadata = cc

-- The trial of the policy on what an action submits.
abbrev pub trial_of : (P : Platform) → Action → Policy P.Number → TestPolicyRequest P.Number
trial_of P action policy = record {
  rules = policy.rules;
  intent = action.intent;
  payload = action.payload;
  target_url = action.target_url;
}

module _ (P : Platform) (svc : Service P.F64) (action : Action) (policy : Policy P.Number) where
  -- The evaluation that the service ends with, if the trial denies; none if it does not.
  abbrev pub Confirms : Trial → Option PolicyEvaluation → Type 0
  Confirms t none = t.immediate_deny ≡ false
  Confirms t (some e) =
      (t.immediate_deny ≡ true)
      × (e.immediate_deny ≡ true)
      × (e.reason ≡ some ("Policy '" <> (policy.name <> ("' violated: " <> t.reason))))
      × (e.risk_level ≡ t.risk_level)
      × (e.matched_policy_id ≡ some policy.id)

  abbrev pub Ends : Trial → Result (List String × Option PolicyEvaluation) → Type 0
  Ends t r =
      (parts : List String) × (found : Option PolicyEvaluation) × (r ≡ ok (parts, found))
      × Confirms t found

  looped :
      (now : Now) (rules : List (Value P.Number)) (t : Trial) (parts : List String)
      (w : World P.Number)
      → svc.is_dry_run ≡ false
      → t.immediate_deny ≡ false
      → Ends
          (trial_loop P now (from_action action) rules t)
          (rules_loop P svc action now policy rules parts w).0
  unfolding trial_loop rules_loop violation attempt pure ◌>>=◌
  looped now [] t parts w wet open_ = (parts, none, refl, open_)
  looped now (rule ∷ rules) t parts w wet open_ =
      elim (Option-cases (evaluate_rule P (from_action action) now rule)) [
        | inl silent ↦ rw (silent, rules_loop, trial_loop) (looped now rules t parts w wet open_)
        | inr (o, match) ↦ elim (Bool-cases o.immediate_deny) [
          | inl deny ↦
              rw (match, rules_loop, trial_loop)
                (rw (deny, wet, open_) (_, _, refl, (refl, refl, refl, refl, refl)))
          | inr allow ↦
              rw (match, rules_loop, trial_loop)
                (rw allow (
                  looped now rules
                    (record (noted P t o) { immediate_deny = t.immediate_deny || false }) _ _ wet
                    (rw open_ refl)))
        ]
      ]

-- The trial in the loop over the rules of the verdict service.
rules_loop-try_rules :
    (P : Platform) (svc : Service P.F64) (action : Action) (policy : Policy P.Number) (now : Now)
    (parts : List String) (w : World P.Number)
    → svc.is_dry_run ≡ false
    → action.target_method ≡ none
    → action.metadata ≡ none
    → Ends P svc action policy
        (try_rules P now (trial_of P action policy))
        (rules_loop P svc action now policy (sort_rules P (array_of policy.rules)) parts w).0
unfolding try_rules
rules_loop-try_rules P svc action policy now parts w wet method metadata =
    subst
      (λ input.
        Ends P svc action policy
          (trial_loop P now input (sort_rules P (array_of policy.rules)) (no_match P))
          (rules_loop P svc action now policy (sort_rules P (array_of policy.rules)) parts w).0)
      (same_input action method metadata)
      (looped P svc action policy now _ (no_match P) parts w wet refl)

differs : (s t : String) → ◌≢◌ s t → (s == t) ≡ false
unfolding string_eq
differs s t h = ground arith

abbrev pub counting_types : List String
counting_types = "rate_limit" ∷ "concurrency_limit" ∷ "histogram_trend" ∷ "budget_limit" ∷ []

module _ (P : Platform) (svc : Service P.F64) (action : Action) where
  -- A rule that counts no rows of the agent.
  abbrev pub IsPlain : Value P.Number → Type 0
  IsPlain rule = All (λ t. text_at "type" rule ≢ some t) counting_types

  not_typed :
      (context t : String) (rule : Value P.Number)
      → text_at "type" rule ≢ some t
      → is_type P svc action context t rule ≡ false
  not_typed context t rule h = elim (Option-cases (text_at "type" rule)) [
    | inl untyped ↦ rw (untyped, is_type) refl
    | inr (s, typed) ↦ rw (typed, is_type) (differs s t (λ same. h (typed ∙ ap some same)))
  ]

  check_limit-none :
      (context : String) (policy : Policy P.Number) (rule : Value P.Number)
      → IsPlain rule
      → check_limit P svc action context policy rule ≡ pure none
  unfolding check_limit
  check_limit-none context policy rule (r, (c, (h, (b, _)))) =
      rw
        (
          not_typed context "rate_limit" rule r,
          not_typed context "concurrency_limit" rule c,
          not_typed context "histogram_trend" rule h,
          not_typed context "budget_limit" rule b,
        )
        refl

  limits_loop-none :
      (context : String) (policy : Policy P.Number) (rules : List (Value P.Number))
      → All IsPlain rules
      → limits_loop P svc action context policy rules ≡ pure none
  unfolding limits_loop pure or_try ◌>>=◌
  limits_loop-none context policy [] h = refl
  limits_loop-none context policy (rule ∷ rules) (p, h) =
      rw (check_limit-none context policy rule p) (limits_loop-none context policy rules h)

  -- The evaluation `e` denies exactly if the trial does, with its reason and its risk level.
  abbrev pub SameVerdict : Policy P.Number → Trial → PolicyEvaluation → Type 0
  SameVerdict policy t e =
      ((t.immediate_deny ≡ false) × (e.immediate_deny ≡ false))
      ⊎ ((t.immediate_deny ≡ true)
          × (e.immediate_deny ≡ true)
          × (e.reason ≡ some ("Policy '" <> (policy.name <> ("' violated: " <> t.reason))))
          × (e.risk_level ≡ t.risk_level)
          × (e.matched_policy_id ≡ some policy.id))

  concluded :
      (policy : Policy P.Number) (t : Trial) (parts : List String) (found : Option PolicyEvaluation)
      (w : World P.Number)
      → All IsPlain (array_of policy.rules)
      → Confirms P svc action policy t found
      → (e : PolicyEvaluation) × ((then_limits P svc action (policy ∷ []) (parts, found) w).0
          ≡ ok e)
        × SameVerdict policy t e
  unfolding check_limits pure or_try ◌>>=◌
  concluded policy t parts (some e) w plain same = (e, refl, inr same)
  concluded policy t parts none w plain open_ =
      rw (limits_loop-none (join "; " parts) policy (array_of policy.rules) plain)
        (_, refl, inl (open_, refl))

  evaluated :
      (policy : Policy P.Number) (now : Now) (t : Trial) (w : World P.Number)
      (r : Result (List String × Option PolicyEvaluation))
      → All IsPlain (array_of policy.rules)
      → Ends P svc action policy t r
      → let (s, v) =
          continue r
            (λ found. or_continue P svc action found (policies_loop P svc action now []))
            w in
        (e : PolicyEvaluation) × ((continue s (then_limits P svc action (policy ∷ [])) v).0 ≡ ok e)
        × SameVerdict policy t e
  unfolding policies_loop pure ◌>>=◌
  evaluated policy now t w r plain (parts, none, is, same) =
      rw is (concluded policy t parts none w plain same)
  evaluated policy now t w r plain (parts, some e, is, same) =
      rw is (concluded policy t parts (some e) w plain same)

  chosen :
      (policy : Policy P.Number) (w : World P.Number)
      → svc.is_dry_run ≡ false
      → action.target_method ≡ none
      → action.metadata ≡ none
      → All IsPlain (array_of policy.rules)
      → (e : PolicyEvaluation) × (((policies_loop P svc action (now_of w.clock) (policy ∷ []) []
              >>= then_limits P svc action (policy ∷ []))
            (record w { faults = later w.faults })).0
          ≡ ok e)
        × SameVerdict policy (try_rules P (now_of w.clock) (trial_of P action policy)) e
  unfolding policies_loop ◌>>=◌
  chosen policy w wet method metadata plain =
      let (r, v) =
        rules_loop P svc action (now_of w.clock) policy (sort_rules P (array_of policy.rules)) []
          (record w { faults = later w.faults }) in
      evaluated policy (now_of w.clock) (try_rules P (now_of w.clock) (trial_of P action policy)) v
        r plain
        (rules_loop-try_rules P svc action policy (now_of w.clock) []
          (record w { faults = later w.faults }) wet method metadata)

-- Where one policy is in force, none of its rules counts rows of the agent, and the verdict service
-- is not on dry run: for an action without method and metadata, the evaluation of the policies by
-- the verdict service fails, or it denies exactly if the trial of the policy's rules on the action
-- at that time denies, then with the trial's reason and its risk level.
pub evaluate_policies-try_rules :
    (P : Platform) (svc : Service P.F64) (action : Action) (policy : Policy P.Number)
    (w : World P.Number)
    → svc.is_dry_run ≡ false
    → action.target_method ≡ none
    → action.metadata ≡ none
    → active_policies (P.sqlite_time (pos w.clock)) w.tables ≡ policy ∷ []
    → All (IsPlain P svc action) (array_of policy.rules)
    → ((evaluate_policies P svc action w).0 ≡ err database)
      ⊎ ((e : PolicyEvaluation) × ((evaluate_policies P svc action w).0 ≡ ok e)
          × SameVerdict P svc action policy
              (try_rules P (now_of w.clock) (trial_of P action policy))
              e)
unfolding evaluate_policies gets select statement ◌>>=◌
evaluate_policies-try_rules P svc action policy w wet method metadata only plain =
    elim (Bool-cases (fails w.faults)) [
      | inl failed ↦ rw failed (inl refl)
      | inr lucky ↦ rw (lucky, only) (inr (chosen P svc action policy w wet method metadata plain))
    ]
