-- ===== src/Actions/Hops.antt =====
-- The requests of the attempts and redirects of a relay.
use deko.Prelude.{
  ℕ, zero, suc, ◌-◌, ◌≡◌, refl, ◌⊎◌, inl, inr, String, Option, none, some, string_eq,
}
use deko.Net.{Url}
use deko.Platform.{Platform}
use deko.Audit.Steps.{Keeps-record_entry}
use deko.World.{Request, M}
use deko.World.Steps.{
  Keeps, keeps_rules, Keeps-bind, Keeps-update, Keeps-gets, Keeps-pure, Keeps-attempt, Keeps-if,
  Keeps-for_some,
}
use deko.Egress
use deko.Actions.Relay.{
  Response, Relay, answered, retry, fatal, Hop, to_next, follow, finish, on_response, request, hop,
  on_relay, attempts_loop, max_redirects, is_redirection,
}
use deko.Actions.Sent.{IsValidated, IsGuarded, Relays, no_request, Relays-IsStep}

module _ (P : Platform) (answer : ℕ → String ⊎ Response) (url_error id : String)
    (Q : Request → Type 0) (guarded : (r : Request) → IsGuarded P url_error r → Q r) where
  -- A hop that keeps the relation from every validated URL.
  abbrev KeepsHop : Hop P answer url_error id → Type 0
  KeepsHop h =
      (url : Url) (m b : String) → IsValidated P url_error url → Keeps (Relays Q) (h url m b)

  abbrev KeepsNext : Option (Hop P answer url_error id) → Type 0
  KeepsNext none = Unit
  KeepsNext (some h) = KeepsHop h

  Keeps-to_next :
      (next : Hop P answer url_error id) (m b raw : String) (status : ℕ) (checked : String ⊎ Url)
      → KeepsHop next
      → Egress.parse P url_error raw ≡ checked
      → Keeps (Relays Q) (to_next P answer url_error id next m b status checked)
  unfolding to_next
  Keeps-to_next next m b raw status (inl e) k same = search (keeps_rules, Relays-IsStep)
  Keeps-to_next next m b raw status (inr target) k same =
      Keeps-if (Relays Q) Relays-IsStep _ _ _ (λ see_other. k target "GET" "" (raw, same))
        (λ other. k target m b (raw, same))

  Keeps-follow :
      (next : Option (Hop P answer url_error id)) (url : Url) (m b : String) (r : Response)
      → KeepsNext next
      → Keeps (Relays Q) (follow P answer url_error id next url m b r)
  unfolding follow
  Keeps-follow none url m b r k = search (keeps_rules, Relays-IsStep)
  Keeps-follow (some next) url m b r k = Keeps-for_some (Relays Q) Relays-IsStep _ _ _ (λ loc.
      Keeps-for_some (Relays Q) Relays-IsStep _ _ _
        (λ next_url. Keeps-to_next next m b next_url.as_str r.status _ k refl))

  Keeps-finish :
      (n hops : ℕ) (r : Response) → Keeps (Relays Q) (finish P answer url_error id n hops r)
  unfolding finish
  Keeps-finish n hops r =
      Keeps-bind (Relays Q) Relays-IsStep _ _
        (Keeps-attempt (Relays Q) Relays-IsStep _ (
          Keeps-record_entry P (Relays Q) Relays-IsStep
            (λ w row action_id event_type details created_at. no_request w.relayed) _ _ _))
        (λ done. Keeps-pure (Relays Q) Relays-IsStep _)

  Keeps-on_response :
      (n hops : ℕ) (next : Option (Hop P answer url_error id)) (url : Url) (m b : String)
      (r : String ⊎ Response)
      → KeepsNext next
      → Keeps (Relays Q) (on_response P answer url_error id n hops next url m b r)
  unfolding on_response
  Keeps-on_response n hops next url m b (inl e) k = search (keeps_rules, Relays-IsStep)
  Keeps-on_response n hops next url m b (inr r) k =
      Keeps-if (Relays Q) Relays-IsStep (is_redirection r.status)
        (follow P answer url_error id next url m b r) (finish P answer url_error id n hops r)
        (λ redirect. Keeps-follow next url m b r k) (λ final. Keeps-finish n hops r)

  Keeps-request :
      (n hops : ℕ) (next : Option (Hop P answer url_error id)) (resolved : String ⊎ Unit {0})
      (url : Url) (m b : String)
      → KeepsNext next
      → IsValidated P url_error url
      → Egress.assert_resolvable P url ≡ resolved
      → Keeps (Relays Q) (request P answer url_error id n hops next resolved url m b)
  unfolding request
  Keeps-request n hops next (inl e) url m b k v same = search (keeps_rules, Relays-IsStep)
  Keeps-request n hops next (inr done) url m b k v same =
      Keeps-bind (Relays Q) Relays-IsStep _ _ (Keeps-gets (Relays Q) Relays-IsStep _) (λ count.
        Keeps-bind (Relays Q) Relays-IsStep _ _
          (Keeps-update (Relays Q) Relays-IsStep _
            (λ w. (_, refl, (guarded _ (url, v, same, refl), tt))))
          (λ sent. Keeps-on_response n hops next url m b (answer count) k))

  Keeps-hop : (n left : ℕ) → KeepsHop (hop P answer url_error id n left)
  unfolding hop
  Keeps-hop n zero url m b v = Keeps-request n max_redirects none _ url m b tt v refl
  Keeps-hop n (suc left) url m b v =
      Keeps-request n (max_redirects - suc left) (some _) _ url m b (Keeps-hop n left) v refl

  Keeps-on_relay :
      (next : String → M P.Number (String ⊎ (ℕ × (String × ℕ)))) (r : Relay)
      → ((e : String) → Keeps (Relays Q) (next e))
      → Keeps (Relays Q) (on_relay P answer url_error id next r)
  unfolding on_relay
  Keeps-on_relay next (answered status body n) k = search (keeps_rules, Relays-IsStep)
  Keeps-on_relay next (retry e) k = k e
  Keeps-on_relay next (fatal e) k = search (keeps_rules, Relays-IsStep)

  pub Keeps-attempts_loop :
      (left : ℕ) (url : Url) (m b last : String)
      → IsValidated P url_error url
      → Keeps (Relays Q) (attempts_loop P answer url_error id left url m b last)
  unfolding attempts_loop
  Keeps-attempts_loop zero url m b last v = search (keeps_rules, Relays-IsStep)
  Keeps-attempts_loop (suc left) url m b last v =
      Keeps-bind (Relays Q) Relays-IsStep _ _ (Keeps-hop _ max_redirects url m b v)
        (λ r. Keeps-on_relay _ r (λ e. Keeps-attempts_loop left url m b e v))
