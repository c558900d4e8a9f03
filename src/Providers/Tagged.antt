-- ===== src/Providers/Tagged.antt =====
-- What a verdict of a provider is read from.
use mathlib.Core.Path.{subst}
use mathlib.Core.Option.{some-injective}
use deko.Prelude.{
  inl, ◌≡◌, refl, ap, ◌∙◌, String, Bool, true, false, ◌⊎◌, Option, none, some, string_eq, ==_sound,
  if◌then◌else◌, inr, ◌<◌, ◌>>=◌ as ◌>>=?◌, ℕ, arith,
}
use deko.Prelude.Text.{trim, trim_start_matches, trim_end_matches}
use deko.Json.{Value, get, text_at}
use deko.Models.{approved, denied, escalate}
use deko.Errors.{Result, ok, ok-injective, err-ne-ok, ◌>>=◌}
use deko.Config.{Config}
use deko.Llm.{
  LlmProvider, provider_open_ai, provider_gemini, provider_anthropic, provider_ollama,
  provider_azure, provider_bedrock, provider_custom, VerdictResult, decision_of, verdict_output,
  confidence_of, parse_verdict_json, or_parse_error,
}
use deko.Platform.{Platform}
use deko.Providers.Send.{HttpRequest, HttpAnswer, is_success}
use deko.Providers.Call.{
  configured, model_for_provider, verdict_of, unified_provider, analyze_action, call_openai,
  call_gemini, call_anthropic, call_ollama, call_azure, call_bedrock, call_custom, openai_http,
  gemini_http, anthropic_http, ollama_http, azure_http, bedrock_body, bedrock_answer, custom_http,
}
use deko.Providers.Answer.{chat_answer, gemini_answer, content_answer, ollama_answer}
use deko.Providers.Said.{
  bind_some, bind_ok, SaysJson, parsed_said, said_raw, said_chat, said_anthropic, said_custom,
  said_retry,
}

-- Only the text "approved" approves.
first_test :
    (a b c : Bool)
    → (if a then approved else if b then denied else if c then escalate else denied) ≡ approved
    → a ≡ true
first_test true b c e = refl
first_test false true c e = absurd (ground arith)
first_test false false true e = absurd (ground arith)
first_test false false false e = absurd (ground arith)

approves_by : (s : String) → decision_of s ≡ approved → s ≡ "approved"
unfolding decision_of
approves_by s e = ==_sound s "approved" (first_test _ _ _ e)

configured_ok :
    {A : Type 0} (o : Option String) (message : String) (next : String → Result A) (a : A)
    → configured o message next ≡ ok a
    → (key : String) × (o ≡ some key) × (next key ≡ ok a)
configured_ok none message next a e = absurd (err-ne-ok e)
configured_ok (some key) message next a e = (key, refl, e)

module _ (P : Platform) where
  -- The verdict carries its provider, its model and the text that it was read from, and approves
  -- only if that text is JSON whose decision reads "approved" in lower case.
  pub record IsRead (p : LlmProvider) (model content : String) (v : VerdictResult P.F64)
      : Type 0 where
    pub provider : v.provider ≡ p
    pub model_name : v.model ≡ model
    pub raw : v.raw_response ≡ content
    pub approval :
        v.decision ≡ approved
        → (json : Value P.Number) × (d : String) × (P.from_str
              (trim (trim_end_matches "```" (trim_start_matches "```json" content)))
            ≡ some json)
          × (text_at "decision" json ≡ some d)
          × (P.to_lowercase d ≡ "approved")

  output-IsRead :
      (json : Value P.Number) (p : LlmProvider) (model content : String) (v : VerdictResult P.F64)
      → P.from_str (trim (trim_end_matches "```" (trim_start_matches "```json" content)))
        ≡ some json
      → verdict_output P json p model content ≡ some v
      → IsRead p model content v
  unfolding verdict_output
  output-IsRead json p model content v same e =
      let (d, d-at, e1) = bind_some (text_at "decision" json) _ v e in
      let (r, r-at, e2) = bind_some (text_at "reason" json) _ v e1 in
      let (k, k-at, e3) = bind_some (text_at "risk_level" json) _ v e2 in
      let (c, c-at, e4) = bind_some (confidence_of P (get "confidence" json)) _ v e3 in
      let read = some-injective _ _ e4 in
      subst (IsRead p model content) read (record {
        provider = refl;
        model_name = refl;
        raw = refl;
        approval = λ a. (json, d, same, d-at, approves_by (P.to_lowercase d) a);
      })

  checked_output-IsRead :
      (o : Option (VerdictResult P.F64)) (message : String) (json : Value P.Number)
      (p : LlmProvider) (model content : String) (v : VerdictResult P.F64)
      → P.from_str (trim (trim_end_matches "```" (trim_start_matches "```json" content)))
        ≡ some json
      → verdict_output P json p model content ≡ o
      → or_parse_error P o message ≡ ok v
      → IsRead p model content v
  checked_output-IsRead none message json p model content v same out e = absurd (err-ne-ok e)
  checked_output-IsRead (some r) message json p model content v same out e =
      output-IsRead json p model content v same (out ∙ ap some (ok-injective e))

  parsed-IsRead :
      (o : Option (Value P.Number)) (message : String) (p : LlmProvider) (model content : String)
      (v : VerdictResult P.F64)
      → P.from_str (trim (trim_end_matches "```" (trim_start_matches "```json" content))) ≡ o
      → or_parse_error P (o >>=? λ json. verdict_output P json p model content) message ≡ ok v
      → IsRead p model content v
  parsed-IsRead none message p model content v same e = absurd (err-ne-ok e)
  parsed-IsRead (some json) message p model content v same e =
      checked_output-IsRead (verdict_output P json p model content) message json p model content v
        same refl e

  module _ (config : Config) (parse_error : String → String)
      (http : ℕ → HttpRequest P.Number → String ⊎ HttpAnswer)
      (bedrock : String → String → Value P.Number → String ⊎ String) where
    -- A verdict that is read out of the text of an answer.
    sent :
        (Says : String → Type 0) (p : LlmProvider) (r : Result String) (v : VerdictResult P.F64)
        → ((content : String) → r ≡ ok content → Says content)
        → (r >>= verdict_of P config parse_error http bedrock p) ≡ ok v
        → (content : String) × Says content
          × IsRead p (model_for_provider P config parse_error http bedrock p) content v
    unfolding parse_verdict_json
    sent Says p r v says e =
        let (content, same, read) = bind_ok r _ v e in
        (content, says content same, parsed-IsRead _ _ p _ content v refl read)

    sent_with_key :
        (Says : String → String → Type 0) (p : LlmProvider) (key : Option String) (message : String)
        (send : String → Result String) (v : VerdictResult P.F64)
        → ((k content : String) → key ≡ some k → send k ≡ ok content → Says k content)
        → configured key message (λ k. send k >>= verdict_of P config parse_error http bedrock p)
          ≡ ok v
        → (content : String) × ((k : String) × (key ≡ some k) × Says k content)
          × IsRead p (model_for_provider P config parse_error http bedrock p) content v
    sent_with_key Says p key message send v says e =
        let (k, same, e') = configured_ok key message _ v e in
        let (content, said, read) = sent (Says k) p (send k) v (λ c. says k c same) e' in
        (content, (k, same, said), read)

    module _ (intent : String) (payload screenshot : Option String) (context : String) where
      -- What each provider says: the text at its place in the JSON of a successful answer to the
      -- request of this action, with the configured key; a custom provider's whole body.
      abbrev pub Says : LlmProvider → String → Type 0
      Says provider_open_ai content =
          (k : String) × (config.openai_api_key ≡ some k)
          × SaysJson P chat_answer content (
              http 0
                (openai_http P config parse_error http bedrock intent payload screenshot context k))
      Says provider_gemini content =
          (k : String) × (config.gemini_api_key ≡ some k)
          × ((n : ℕ) × (n < 3)
              × SaysJson P gemini_answer (some content) (
                  http n (
                    gemini_http P config parse_error http bedrock intent payload screenshot context
                      k)))
      Says provider_anthropic content =
          (k : String) × (config.anthropic_api_key ≡ some k)
          × SaysJson P content_answer content (
              http 0 (
                anthropic_http P config parse_error http bedrock intent payload screenshot context
                  k))
      Says provider_ollama content =
          SaysJson P ollama_answer content (
            http 0
              (ollama_http P config parse_error http bedrock intent payload screenshot context))
      Says provider_azure content =
          (k : String) × (config.azure_api_key ≡ some k)
          × SaysJson P chat_answer content (
              http 0
                (azure_http P config parse_error http bedrock intent payload screenshot context k))
      Says provider_bedrock content =
          (body : String) × (bedrock config.bedrock_region config.bedrock_model_id
              (bedrock_body P config parse_error http bedrock intent payload screenshot context)
            ≡ inr body)
          × ((json : Value P.Number) × (P.from_str body ≡ some json)
              × (content_answer json ≡ some content))
      Says provider_custom content =
          (k : String) × (config.custom_provider_url ≡ some k)
          × ((a : HttpAnswer) × (http 0 (
                  custom_http P config parse_error http bedrock intent payload screenshot context k)
                ≡ inr a)
              × (is_success a ≡ true)
              × (a.body ≡ content))

      said_bedrock :
          (answer : String ⊎ String) (content : String)
          → bedrock_answer P config parse_error http bedrock intent payload screenshot context
              answer
            ≡ ok content
          → (body : String) × (answer ≡ inr body)
            × ((json : Value P.Number) × (P.from_str body ≡ some json)
                × (content_answer json ≡ some content))
      unfolding bedrock_answer
      said_bedrock (inl m) content e = absurd (err-ne-ok e)
      said_bedrock (inr body) content e =
          (body, refl, parsed_said P parse_error _ content_answer body content e)

      -- The verdict is read from what the provider said, as one of this provider.
      abbrev pub Reads : LlmProvider → VerdictResult P.F64 → Type 0
      Reads p v =
          (content : String) × Says p content
          × IsRead p (model_for_provider P config parse_error http bedrock p) content v

      analyze_with :
          (p : LlmProvider) (v : VerdictResult P.F64)
          → analyze_action P config parse_error http bedrock intent payload screenshot context p
            ≡ ok v
          → Reads p v
      unfolding analyze_action call_openai call_gemini call_anthropic call_ollama call_azure
          call_bedrock call_custom
      analyze_with provider_open_ai v e =
          sent_with_key _ provider_open_ai config.openai_api_key "OPENAI_API_KEY not configured" _ v
            (λ k content same h. said_chat P parse_error _ content h) e
      analyze_with provider_gemini v e =
          sent_with_key _ provider_gemini config.gemini_api_key "GEMINI_API_KEY not configured" _ v
            (λ k content same h. said_retry P parse_error _ content h) e
      analyze_with provider_anthropic v e =
          sent_with_key _ provider_anthropic config.anthropic_api_key
            "ANTHROPIC_API_KEY not configured" _ v
            (λ k content same h. said_anthropic P parse_error _ content h) e
      analyze_with provider_ollama v e =
          sent _ provider_ollama _ v (λ content h. said_raw P parse_error ollama_answer _ content h)
            e
      analyze_with provider_azure v e =
          sent_with_key _ provider_azure config.azure_api_key "AZURE_API_KEY not configured" _ v
            (λ k content same h. said_raw P parse_error chat_answer _ content h) e
      analyze_with provider_bedrock v e =
          sent _ provider_bedrock _ v
            (λ content h.
              said_bedrock
                (bedrock config.bedrock_region config.bedrock_model_id (
                  bedrock_body P config parse_error http bedrock intent payload screenshot context))
                content h)
            e
      analyze_with provider_custom v e =
          sent_with_key _ provider_custom config.custom_provider_url
            "CUSTOM_PROVIDER_URL not configured" _ v
            (λ k content same h. said_custom P parse_error _ content h) e

-- A verdict that a provider answers with was read from what that provider's server said to the
-- request of this action: the text at its place in a successful answer. It is a verdict of this
-- provider and its model, and an approval only if that text, without its fence, is JSON whose
-- decision reads "approved" in lower case: whatever the servers answer, nothing else approves.
pub analyze_action-Reads :
    (P : Platform) (config : Config) (parse_error : String → String)
    (http : ℕ → HttpRequest P.Number → String ⊎ HttpAnswer)
    (bedrock : String → String → Value P.Number → String ⊎ String) (intent : String)
    (payload screenshot : Option String) (context : String) (p : LlmProvider)
    (v : VerdictResult P.F64)
    → (unified_provider P config parse_error http bedrock p).analyze_action intent payload
        screenshot context
      ≡ ok v
    → Reads P config parse_error http bedrock intent payload screenshot context p v
unfolding unified_provider
analyze_action-Reads P config parse_error http bedrock intent payload screenshot context p v e =
    analyze_with P config parse_error http bedrock intent payload screenshot context p v e
