-- ===== src/Actions/Guarded.antt =====
-- Which requests are relayed, and for whom.
use deko.Prelude.{
  ℕ, ◌≡◌, refl, ◌⊎◌, inl, inr, String, Bool, true, false, Option, none, some, unwrap_or, List, [],
  ◌∷◌, ◌==◌, string_eq, ==_sound, if◌then◌else◌, Bool-cases,
}
use deko.Models.{Action, Verdict, VerdictDecision, approved, denied, escalate}
use deko.Errors.{not_found, bad_request, forbidden}
use deko.Net.{Url}
use deko.Platform.{Platform}
use deko.Audit.Steps.{Keeps-record_entry}
use deko.World.{World, Request, pure, raise, select, statement, require, ◌>>=◌}
use deko.World.Steps.{
  Keeps, keeps_rules, Keeps-bind, Keeps-execute, Keeps-pure, Keeps-attempt, Keeps-if, Keeps-raise,
}
use deko.VerdictService.Process.{find_action}
use deko.Egress
use deko.Actions.Relay.{max_attempts, Response, execute_forwarded_request}
use deko.Actions.Forward.{
  report, by_decision, to_target, with_target, is_forwarded, forward_judged, forward_owned,
  forward_action, find_verdict,
}
use deko.Actions.Sent.{IsValidated, IsGuarded, Relays, no_request, Relays-IsStep}
use deko.Actions.Hops.{Keeps-attempts_loop}

module _ (P : Platform) (answer : ℕ → String ⊎ Response) (url_error id : String) where
  module _ (Q : Request → Type 0) where
    Keeps-report :
        (action : Action) (r : String ⊎ (ℕ × (String × ℕ)))
        → Keeps (Relays Q) (report P answer url_error id action r)
    unfolding report
    Keeps-report action (inl e) =
        Keeps-bind (Relays Q) Relays-IsStep _ _
          (Keeps-attempt (Relays Q) Relays-IsStep _
            (Keeps-execute (Relays Q) Relays-IsStep _ (λ w. no_request w.relayed)))
          (λ done.
            Keeps-bind (Relays Q) Relays-IsStep _ _
              (Keeps-attempt (Relays Q) Relays-IsStep _ (
                Keeps-record_entry P (Relays Q) Relays-IsStep
                  (λ w row action_id event_type details created_at. no_request w.relayed) _ _ _))
              (λ done. Keeps-pure (Relays Q) Relays-IsStep _))
    Keeps-report action (inr (status, (body, n))) = search (keeps_rules, Relays-IsStep)

    -- Only an approval sends anything.
    Keeps-by_decision :
        (action : Action) (method : String) (target : Url) (reason : String) (d : VerdictDecision)
        → IsValidated P url_error target
        → (d ≡ approved → (r : Request) → IsGuarded P url_error r → Q r)
        → Keeps (Relays Q) (by_decision P answer url_error id action method target reason d)
    unfolding by_decision execute_forwarded_request
    Keeps-by_decision action method target reason approved v k =
        Keeps-bind (Relays Q) Relays-IsStep _ _
          (Keeps-execute (Relays Q) Relays-IsStep _ (λ w. no_request w.relayed))
          (λ done.
            Keeps-bind (Relays Q) Relays-IsStep _ _
              (Keeps-attempts_loop P answer url_error id Q (k refl) max_attempts target method
                (unwrap_or action.payload "") "no attempts made" v)
              (Keeps-report action))
    Keeps-by_decision action method target reason denied v k = search (keeps_rules, Relays-IsStep)
    Keeps-by_decision action method target reason escalate v k = search (keeps_rules, Relays-IsStep)

    Keeps-to_target :
        (action : Action) (verdict : Verdict) (raw method : String) (checked : String ⊎ Url)
        → Egress.parse P url_error raw ≡ checked
        → (verdict.decision ≡ approved → (r : Request) → IsGuarded P url_error r → Q r)
        → Keeps (Relays Q) (to_target P answer url_error id action verdict method checked)
    unfolding to_target
    Keeps-to_target action verdict raw method (inl e) same k = search (keeps_rules, Relays-IsStep)
    Keeps-to_target action verdict raw method (inr target) same k =
        Keeps-by_decision action method target verdict.reason verdict.decision (raw, same) k

    Keeps-with_target :
        (action : Action) (verdict : Verdict) (url method : Option String)
        → (verdict.decision ≡ approved → (r : Request) → IsGuarded P url_error r → Q r)
        → Keeps (Relays Q) (with_target P answer url_error id action verdict url method)
    unfolding with_target
    Keeps-with_target action verdict none method k = search (keeps_rules, Relays-IsStep)
    Keeps-with_target action verdict (some url) none k = search (keeps_rules, Relays-IsStep)
    Keeps-with_target action verdict (some url) (some method) k =
        Keeps-to_target action verdict url method _ refl k

    Keeps-judged :
        (action : Action) (o : Option Verdict)
        → ((verdict : Verdict)
            → o ≡ some verdict
            → verdict.decision ≡ approved
            → (r : Request) → IsGuarded P url_error r
            → Q r)
        → Keeps (Relays Q) (
            require (bad_request "No verdict available yet") o
            >>= forward_judged P answer url_error id action)
    unfolding require forward_judged ◌>>=◌ raise pure
    Keeps-judged action none k = record { at = λ w. no_request w.relayed }
    Keeps-judged action (some verdict) k = record {
      at =
          (Keeps-if (Relays Q) Relays-IsStep (is_forwarded action.status)
            (raise (bad_request "Action already forwarded (idempotent)")) _
            (λ already. Keeps-raise (Relays Q) Relays-IsStep _)
            (λ fresh.
              Keeps-with_target action verdict action.target_url action.target_method
                (k verdict refl))).at;
    }

  module _ (agent_id : String) (w : World P.Number) where
    -- The request passed the guard, and the action is the agent's and was approved.
    abbrev pub IsApproved : Request → Type 0
    IsApproved r =
        IsGuarded P url_error r
        × (action : Action) × (verdict : Verdict) × (find_action id w.tables ≡ some action)
        × (action.agent_id ≡ agent_id)
        × (find_verdict id w.tables ≡ some verdict)
        × (verdict.decision ≡ approved)

    owned_with :
        (action : Action) (fs : List Bool)
        → find_action id w.tables ≡ some action
        → action.agent_id ≡ agent_id
        → Relays IsApproved w
            (forward_owned P answer url_error id action (record w { faults = fs })).1
    unfolding forward_owned select statement ◌>>=◌
    owned_with action (true ∷ fs) f a = no_request w.relayed
    owned_with action [] f a =
        (Keeps-judged IsApproved action (find_verdict id w.tables)
            (λ verdict found ok r g. (g, action, verdict, f, a, found, ok))).at
          (record w { faults = [] })
    owned_with action (false ∷ fs) f a =
        (Keeps-judged IsApproved action (find_verdict id w.tables)
            (λ verdict found ok r g. (g, action, verdict, f, a, found, ok))).at
          (record w { faults = fs })

    found_with :
        (o : Option Action) (fs : List Bool)
        → find_action id w.tables ≡ o
        → Relays IsApproved w
            ((require (not_found "Action not found") o >>= λ action.
                if action.agent_id == agent_id
                then forward_owned P answer url_error id action
                else raise (forbidden "Action belongs to another agent"))
              (record w { faults = fs })).1
    unfolding require raise ◌>>=◌
    found_with none fs f = no_request w.relayed
    found_with (some action) fs f = elim (Bool-cases (action.agent_id == agent_id)) [
      | inl own ↦ rw own (owned_with action fs f (==_sound action.agent_id agent_id own))
      | inr other ↦ rw other (no_request w.relayed)
    ]

    forward_with :
        (fs : List Bool)
        → Relays IsApproved w
            (forward_action P answer url_error id agent_id (record w { faults = fs })).1
    unfolding forward_action select statement ◌>>=◌
    forward_with (true ∷ fs) = no_request w.relayed
    forward_with [] = found_with (find_action id w.tables) [] refl
    forward_with (false ∷ fs) = found_with (find_action id w.tables) fs refl

-- Whatever statements fail and whatever the targets answer, forwarding sends requests only for an
-- action that is the agent's and whose verdict is an approval, and each request, redirects
-- included, goes to a URL that passed the static check and whose host resolved to permitted
-- addresses only.
pub forward_action-IsApproved :
    (P : Platform) (answer : ℕ → String ⊎ Response) (url_error id agent_id : String)
    (w : World P.Number)
    → Relays
        (IsApproved P answer url_error id agent_id w)
        w
        (forward_action P answer url_error id agent_id w).1
forward_action-IsApproved P answer url_error id agent_id w =
    forward_with P answer url_error id agent_id w w.faults
