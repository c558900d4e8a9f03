-- ===== src/System/Relays.antt =====
-- Forwarding, under a relation that allows the changes of the entry points.
use deko.Prelude.{
  ℕ, zero, suc, ◌-◌, ◌≡◌, refl, ◌⊎◌, inl, inr, String, Option, none, some, List, [], ◌∷◌, map,
  string_eq, arith,
}
use deko.Models.{Action, ActionStatus, Verdict, VerdictDecision, approved, denied, escalate}
use deko.Net.{Url}
use deko.Platform.{Platform}
use deko.Audit.Steps.{Keeps-record_entry}
use deko.World.{World, M, execute}
use deko.World.Steps.{
  Keeps, IsStep, keeps_rules, Keeps-bind, Keeps-update, Keeps-gets, Keeps-if, Keeps-for_some,
  Keeps-execute,
}
use deko.VerdictService.Process.{set_status}
use deko.Actions.Relay.{
  Response, Relay, answered, retry, fatal, Hop, to_next, follow, finish, on_response, request, hop,
  on_relay, attempts_loop, execute_forwarded_request, max_redirects, is_redirection,
}
use deko.Actions.Forward.{
  report, by_decision, to_target, with_target, forward_judged, forward_owned, forward_action,
}
use deko.System.Rules.{submitted, Allows}

pub submitted-set_status :
    (id : String) (s : ActionStatus) (actions : List Action)
    → map submitted (set_status id s actions) ≡ map submitted actions
unfolding set_status
submitted-set_status id s [] = refl
submitted-set_status id s (a ∷ actions) = ground (arith, submitted-set_status id s actions)

module _ (P : Platform) (R : World P.Number → World P.Number → Type 0) (S : IsStep R)
    (allows : Allows P R S) (answer : ℕ → String ⊎ Response) (url_error id : String) where
  abbrev KeepsHop : Hop P answer url_error id → Type 0
  KeepsHop h = (url : Url) (m b : String) → Keeps R (h url m b)

  abbrev KeepsNext : Option (Hop P answer url_error id) → Type 0
  KeepsNext none = Unit
  KeepsNext (some h) = KeepsHop h

  Keeps-to_next :
      (next : Hop P answer url_error id) (m b : String) (status : ℕ) (checked : String ⊎ Url)
      → KeepsHop next
      → Keeps R (to_next P answer url_error id next m b status checked)
  unfolding to_next
  Keeps-to_next next m b status (inl e) k = search (keeps_rules, S)
  Keeps-to_next next m b status (inr target) k =
      Keeps-if R S _ _ _ (λ see_other. k target "GET" "") (λ other. k target m b)

  Keeps-follow :
      (next : Option (Hop P answer url_error id)) (url : Url) (m b : String) (r : Response)
      → KeepsNext next
      → Keeps R (follow P answer url_error id next url m b r)
  unfolding follow
  Keeps-follow none url m b r k = search (keeps_rules, S)
  Keeps-follow (some next) url m b r k =
      Keeps-for_some R S _ _ _
        (λ loc. Keeps-for_some R S _ _ _ (λ next_url. Keeps-to_next next m b r.status _ k))

  Keeps-finish : (n hops : ℕ) (r : Response) → Keeps R (finish P answer url_error id n hops r)
  unfolding finish
  Keeps-finish n hops r = search (keeps_rules, S, Keeps-record_entry P R S allows.entry)

  Keeps-on_response :
      (n hops : ℕ) (next : Option (Hop P answer url_error id)) (url : Url) (m b : String)
      (r : String ⊎ Response)
      → KeepsNext next
      → Keeps R (on_response P answer url_error id n hops next url m b r)
  unfolding on_response
  Keeps-on_response n hops next url m b (inl e) k = search (keeps_rules, S)
  Keeps-on_response n hops next url m b (inr r) k =
      Keeps-if R S (is_redirection r.status) _ _ (λ redirect. Keeps-follow next url m b r k)
        (λ final. Keeps-finish n hops r)

  Keeps-request :
      (n hops : ℕ) (next : Option (Hop P answer url_error id)) (resolved : String ⊎ Unit {0})
      (url : Url) (m b : String)
      → KeepsNext next
      → Keeps R (request P answer url_error id n hops next resolved url m b)
  unfolding request
  Keeps-request n hops next (inl e) url m b k = search (keeps_rules, S)
  Keeps-request n hops next (inr done) url m b k = Keeps-bind R S _ _ (Keeps-gets R S _) (λ count.
      Keeps-bind R S _ _ (Keeps-update R S _ (λ w. allows.relays w _))
        (λ sent. Keeps-on_response n hops next url m b (answer count) k))

  Keeps-hop : (n left : ℕ) → KeepsHop (hop P answer url_error id n left)
  unfolding hop
  Keeps-hop n zero url m b = Keeps-request n max_redirects none _ url m b tt
  Keeps-hop n (suc left) url m b =
      Keeps-request n (max_redirects - suc left) (some _) _ url m b (Keeps-hop n left)

  Keeps-on_relay :
      (next : String → M P.Number (String ⊎ (ℕ × (String × ℕ)))) (r : Relay)
      → ((e : String) → Keeps R (next e))
      → Keeps R (on_relay P answer url_error id next r)
  unfolding on_relay
  Keeps-on_relay next (answered status body n) k = search (keeps_rules, S)
  Keeps-on_relay next (retry e) k = k e
  Keeps-on_relay next (fatal e) k = search (keeps_rules, S)

  Keeps-attempts_loop :
      (left : ℕ) (url : Url) (m b last : String)
      → Keeps R (attempts_loop P answer url_error id left url m b last)
  unfolding attempts_loop
  Keeps-attempts_loop zero url m b last = search (keeps_rules, S)
  Keeps-attempts_loop (suc left) url m b last =
      Keeps-bind R S _ _ (Keeps-hop _ max_redirects url m b)
        (λ r. Keeps-on_relay _ r (Keeps-attempts_loop left url m b))

  Keeps-status :
      (s : ActionStatus) → Keeps R (execute (λ t. record t { actions = set_status id s t.actions }))
  Keeps-status s =
      Keeps-execute R S _ (λ w. allows.statuses w _ (submitted-set_status id s w.tables.actions))

  Keeps-report :
      (action : Action) (r : String ⊎ (ℕ × (String × ℕ)))
      → Keeps R (report P answer url_error id action r)
  unfolding report
  Keeps-report action (inl e) =
      search (keeps_rules, S, Keeps-status, Keeps-record_entry P R S allows.entry)
  Keeps-report action (inr (status, (body, n))) = search (keeps_rules, S)

  Keeps-by_decision :
      (action : Action) (method : String) (target : Url) (reason : String) (d : VerdictDecision)
      → Keeps R (by_decision P answer url_error id action method target reason d)
  unfolding by_decision execute_forwarded_request
  Keeps-by_decision action method target reason approved =
      search (keeps_rules, S, Keeps-status, Keeps-attempts_loop, Keeps-report)
  Keeps-by_decision action method target reason denied = search (keeps_rules, S)
  Keeps-by_decision action method target reason escalate = search (keeps_rules, S)

  Keeps-to_target :
      (action : Action) (verdict : Verdict) (method : String) (checked : String ⊎ Url)
      → Keeps R (to_target P answer url_error id action verdict method checked)
  unfolding to_target
  Keeps-to_target action verdict method (inl e) = search (keeps_rules, S)
  Keeps-to_target action verdict method (inr target) = Keeps-by_decision action method target _ _

  Keeps-with_target :
      (action : Action) (verdict : Verdict) (url method : Option String)
      → Keeps R (with_target P answer url_error id action verdict url method)
  unfolding with_target
  Keeps-with_target action verdict none method = search (keeps_rules, S)
  Keeps-with_target action verdict (some url) none = search (keeps_rules, S)
  Keeps-with_target action verdict (some url) (some method) =
      Keeps-to_target action verdict method _

  Keeps-forward_judged :
      (action : Action) (verdict : Verdict)
      → Keeps R (forward_judged P answer url_error id action verdict)
  unfolding forward_judged
  Keeps-forward_judged action verdict = search (keeps_rules, S, Keeps-with_target)

  Keeps-forward_owned : (action : Action) → Keeps R (forward_owned P answer url_error id action)
  unfolding forward_owned
  Keeps-forward_owned action = search (keeps_rules, S, Keeps-forward_judged)

  pub Keeps-forward_action :
      (agent_id : String) → Keeps R (forward_action P answer url_error id agent_id)
  unfolding forward_action
  Keeps-forward_action agent_id = search (keeps_rules, S, Keeps-forward_owned)
