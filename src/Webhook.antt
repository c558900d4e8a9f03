-- ===== src/Webhook.antt =====
-- services/webhook.rs: the signature of a webhook, its check, and the delivery with its retries.
-- The receiver's answers are an argument: does the attempt of this number get a success status.
pub mod Signature
use Prim.Native.String.{[] as nil_text, ◌∷◌ as cons_text}
use Prim.Native.String.{count}
use Prim.Native.Char.{code}
use deko.Prelude.{
  ℕ, zero, suc, String, ◌<>◌, Bool, true, false, ◌&&◌, Option, none, some, List, [], ◌∷◌, ◌++◌, ◌⊎◌,
  inl, inr, ◌==◌, nat_eq, if◌then◌else◌,
}
use deko.Prelude.Int.{ℤ, pos}
use deko.Prelude.Text.{trim, show_int}
use deko.Json.{Value, object, text, optional}
use deko.Models.{show_decision, show_risk}
use deko.Llm.{VerdictResult, show_provider, provider_text}
use deko.Net.{Url}
use deko.Platform.{Platform}
use deko.World.{World, Delivery, M, pure, gets, update, for_some, ◌>>=◌, ◌>>◌}
use deko.Egress

pub record WebhookService : Type 0 where
  pub webhook_url : Option String
  pub webhook_secret : Option String

-- The fold over the zipped bytes: the accumulator stays 0 as long as the bytes agree.
unfoldable pub fold_equal : Bool → String → String → Bool
fold_equal acc nil_text t = acc
fold_equal acc (cons_text c s) nil_text = acc
fold_equal acc (cons_text c s) (cons_text d t) = fold_equal (acc && (code c == code d)) s t

abbrev pub or_else : Option String → Option String → Option String
or_else none o = o
or_else (some s) o = some s

module _ (P : Platform) where
  open P use {Number, F64, hmac_sha256, print}

  abbrev pub signature : String → ℤ → String → String
  signature payload timestamp secret =
      "t="
      <> (show_int timestamp
          <> (",v1=" <> hmac_sha256 secret (show_int timestamp <> ("." <> payload))))

  unfoldable pub sign : WebhookService → String → ℤ → Option String
  unfolding show_int
  sign svc payload timestamp = elim svc.webhook_secret [
    | none ↦ none
    | some secret ↦ some (signature payload timestamp secret)
  ]

  -- Equal numbers of characters stand for equal `len`: texts that differ in one alone are not equal.
  unfoldable pub verify : WebhookService → String → ℤ → String → Bool
  unfolding sign trim fold_equal
  verify svc payload timestamp header = elim (sign svc payload timestamp) [
    | none ↦ false
    | some expected ↦
        if count (trim header) == count expected
        then fold_equal true (trim header) expected
        else false
  ]

  -- The payload of `send_verdict`.
  unfoldable pub verdict_payload : String → VerdictResult F64 → Value Number
  verdict_payload action_id verdict = object (
      ("event", text "verdict")
      ∷ ("action_id", text action_id)
      ∷ ("decision", text (show_decision verdict.decision))
      ∷ ("reason", text verdict.reason)
      ∷ ("risk_level", text (show_risk verdict.risk_level))
      ∷ ("provider", text (provider_text verdict.provider))
      ∷ ("model", text verdict.model)
      ∷ [])

  module _ (answers : ℕ → Bool) (delivery : Delivery) where
    -- The loop: `left` attempts are left, and `attempt` is the number of the next.
    unfoldable pub attempts : ℕ → ℕ → M Number Bool
    attempts zero attempt = pure false
    attempts (suc left) attempt = do
      _ ← update (λ w. record w { webhooks = w.webhooks ++ (delivery ∷ []) })
      if answers attempt then pure true else attempts left (suc attempt)

  -- What is sent to a URL that passed the guard.
  unfoldable pub send_checked :
      WebhookService
      → (ℕ → Bool)
      → String
      → VerdictResult F64
      → String
      → String ⊎ Url
      → M Number Bool
  unfolding attempts verdict_payload sign
  send_checked svc answers action_id verdict url (inl message) = pure false
  send_checked svc answers action_id verdict url (inr checked) = do
    now ← gets (λ w. w.clock)
    let body = print (verdict_payload action_id verdict)
    let delivery : Delivery = record { url = url; body = body; signature = sign svc body (pos now) }
    attempts answers delivery 3 0

  -- `send_verdict`: true if there is no URL or the webhook was delivered. `url_error` stands for
  -- the message of the `url` crate.
  unfoldable pub send_verdict :
      WebhookService
      → (ℕ → Bool)
      → String
      → String
      → VerdictResult F64
      → Option String
      → M Number Bool
  unfolding send_checked
  send_verdict svc answers url_error action_id verdict agent_webhook_url =
      for_some (or_else agent_webhook_url svc.webhook_url) true
        (λ url. send_checked svc answers action_id verdict url (Egress.parse P url_error url))
