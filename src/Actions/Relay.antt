-- ===== src/Actions/Relay.antt =====
-- execute_forwarded_request: the attempts and, in each, the redirects. The answers of the targets
-- are an argument: what the request of this number is answered with. The three X-Deko headers of a
-- request and the pauses between the attempts are left out.
use Prim.Native.String.{len, slice}
use deko.Prelude.{
  ℕ, zero, suc, ◌+◌, ◌-◌, ◌*◌, ltb, leb, String, ◌<>◌, Bool, ◌&&◌, ◌⊎◌, inl, inr, Option, none,
  some, [], ◌∷◌, ◌++◌, length, unwrap_or, ◌==◌, string_eq, nat_eq, if◌then◌else◌,
}
use deko.Prelude.Text.{show_nat}
use deko.Json.{number, object}
use deko.Net.{Url}
use deko.Platform.{Platform}
use deko.Audit.Record.{record_entry}
use deko.World.{Request, M, pure, attempt, gets, update, for_some, ◌>>=◌}
use deko.Egress

pub record Response : Type 0 where
  pub status : ℕ
  pub location : Option String
  pub body : String

-- How an attempt ends: with a response, with an error that the next attempt may mend, or with one
-- that ends the relay.
pub data Relay : Type 0 where
  answered : ℕ → String → ℕ → Relay
  retry : String → Relay
  fatal : String → Relay

abbrev pub max_attempts : ℕ
max_attempts = 3

abbrev pub max_redirects : ℕ
max_redirects = 3

abbrev pub response_body_cap : ℕ
response_body_cap = 256 * 1024

-- The cut panics in the source off a character boundary, and is total here.
unfoldable pub capped : String → String
capped body =
    if ltb response_body_cap (len body)
    then slice body 0 response_body_cap <> "…[truncated]"
    else body

abbrev pub is_redirection : ℕ → Bool
is_redirection status = leb 300 status && ltb status 400

-- The body is sent with these methods only; any other method is a GET.
abbrev pub sent_method : String → String
sent_method m =
    if m == "POST"
    then m
    else if m == "DELETE"
    then m
    else if m == "PUT"
    then m
    else if m == "PATCH"
    then m
    else "GET"

abbrev pub sent_body : String → String → String
sent_body m body =
    if m == "POST" then body else if m == "PUT" then body else if m == "PATCH" then body else ""

module _ (P : Platform) (answer : ℕ → String ⊎ Response) (url_error : String)
    (action_id : String) where
  open P use {Number, from_nat, from_str, join_url}

  abbrev pub Hop : Type 0
  Hop = Url → String → String → M Number Relay

  -- The next hop, if its URL passes the guard; 303 makes it a GET without a body.
  unfoldable pub to_next : Hop → String → String → ℕ → String ⊎ Url → M Number Relay
  to_next next method body status (inl e) = pure (fatal e)
  to_next next method body status (inr target) =
      if status == 303 then next target "GET" "" else next target method body

  -- A redirect: `next` is the next hop, none after the last one.
  unfoldable pub follow : Option Hop → Url → String → String → Response → M Number Relay
  unfolding show_nat to_next
  follow none current method body r =
      pure (fatal ("exceeded " <> (show_nat max_redirects <> " redirect hops")))
  follow (some next) current method body r =
      for_some r.location (fatal "redirect without location header") (λ loc.
        for_some (join_url current.as_str loc) (fatal "bad redirect location") (λ next_url.
          to_next next method body r.status (Egress.parse P url_error next_url.as_str)))

  -- A response that is not a redirect; `hops` counts the redirects before it.
  unfoldable pub finish : ℕ → ℕ → Response → M Number Relay
  unfolding capped
  finish attempt_no hops r =
      attempt (
        record_entry P (some action_id) "action_forwarded" (
          object (
            ("target_status", number (from_nat r.status))
            ∷ ("attempts", number (from_nat attempt_no))
            ∷ ("hops", number (from_nat (hops + 1)))
            ∷ [])))
      >>= λ done. pure (answered r.status (capped r.body) attempt_no)

  -- The response of the target.
  unfoldable pub on_response :
      ℕ → ℕ → Option Hop → Url → String → String → String ⊎ Response → M Number Relay
  unfolding follow finish
  on_response attempt_no hops next current method body (inl e) = pure (retry e)
  on_response attempt_no hops next current method body (inr r) =
      if is_redirection r.status
      then follow next current method body r
      else finish attempt_no hops r

  -- One request, if the guard lets it through.
  unfoldable pub request : ℕ → ℕ → Option Hop → String ⊎ Unit {0} → Hop
  unfolding on_response
  request attempt_no hops next (inl e) current method body = pure (retry e)
  request attempt_no hops next (inr ok) current method body = do
    let sent : Request = record {
      url = current.as_str;
      method = sent_method method;
      body = sent_body method body;
    }
    n ← gets (λ w. length w.relayed)
    _ ← update (λ w. record w { relayed = w.relayed ++ (sent ∷ []) })
    on_response attempt_no hops next current method body (answer n)

  -- The inner loop, with the number of redirects that are left.
  unfoldable pub hop : ℕ → ℕ → Hop
  unfolding request
  hop attempt_no zero current method body =
      request attempt_no max_redirects none (Egress.assert_resolvable P current) current method body
  hop attempt_no (suc left) current method body =
      request attempt_no (max_redirects - suc left) (some (hop attempt_no left))
        (Egress.assert_resolvable P current) current method body

  -- What an attempt leads to; `next` is the next attempt.
  unfoldable pub on_relay :
      (String → M Number (String ⊎ (ℕ × (String × ℕ))))
      → Relay
      → M Number (String ⊎ (ℕ × (String × ℕ)))
  on_relay next (answered status body attempt_no) = pure (inr (status, (body, attempt_no)))
  on_relay next (retry e) = next e
  on_relay next (fatal e) = pure (inl e)

  -- The outer loop, with the number of attempts that are left.
  unfoldable pub attempts_loop :
      ℕ → Url → String → String → String → M Number (String ⊎ (ℕ × (String × ℕ)))
  unfolding hop on_relay show_nat
  attempts_loop zero target method body last_error =
      pure
        (inl ("forward failed after " <> (show_nat max_attempts <> (" attempts: " <> last_error))))
  attempts_loop (suc left) target method body last_error =
      hop (max_attempts - left) max_redirects target method body
      >>= on_relay (attempts_loop left target method body)

  unfoldable pub execute_forwarded_request :
      String → Option String → Url → M Number (String ⊎ (ℕ × (String × ℕ)))
  unfolding attempts_loop
  execute_forwarded_request method payload target =
      attempts_loop max_attempts target method (unwrap_or payload "") "no attempts made"
