-- ===== src/Llm.antt =====
-- services/llm.rs: the verdict of a provider, how it is read from the provider's text, and the
-- provider metrics; LLMProvider of config.rs. A provider is what its `analyze_action` answers.
use deko.Prelude.{
  ◌%◌, ◌^◌, drop, get_elem?, ℕ, ◌+◌, ◌-◌, ◌/◌, min, ltb, String, ◌<>◌, Option, none, some, List, [],
  ◌∷◌, ◌++◌, map, length, order_by, present, unwrap_or, ◌==◌, string_eq, if◌then◌else◌, ◌>>=◌, ◌||◌,
}
use deko.Prelude.Text.{trim, join, trim_start_matches, trim_end_matches}
use deko.Json.{Value, null, text, arr, to_list, get, as_str, as_number}
use deko.Models.{
  RiskLevel, VerdictDecision, low, medium, high, critical, approved, denied, escalate,
}
use deko.Errors.{open_ai, Result, ok, err}
use deko.Platform.{Platform}

pub data LlmProvider : Type 0 where
  provider_open_ai provider_gemini provider_anthropic provider_ollama : LlmProvider
  provider_azure provider_bedrock provider_custom : LlmProvider

unfoldable pub show_provider : LlmProvider → String
show_provider provider_open_ai = "openai"
show_provider provider_gemini = "gemini"
show_provider provider_anthropic = "anthropic"
show_provider provider_ollama = "ollama"
show_provider provider_azure = "azure"
show_provider provider_bedrock = "bedrock"
show_provider provider_custom = "custom"

-- `Serialize` with `rename_all = "snake_case"`
unfoldable pub provider_text : LlmProvider → String
unfolding show_provider
provider_text provider_open_ai = "open_a_i"
provider_text p = show_provider p

pub record VerdictResult (F : Type 0) : Type 0 where
  pub decision : VerdictDecision
  pub reason : String
  pub risk_level : RiskLevel
  pub raw_response : String
  pub provider : LlmProvider
  pub model : String
  pub confidence : F
  pub reasoning_chain : Option String

-- `LLMProviderTrait`; `analyze_action` takes the intent, the payload, the screenshot and the context.
pub record Provider (F : Type 0) : Type 0 where
  pub name : LlmProvider
  pub model_name : String
  pub analyze_action : String → Option String → Option String → String → Result (VerdictResult F)

-- The arms on the lower-case text of a decision and of a risk level.
unfoldable pub decision_of : String → VerdictDecision
decision_of s =
    if s == "approved"
    then approved
    else if s == "denied"
    then denied
    else if (s == "escalate") || (s == "escalated")
    then escalate
    else denied

unfoldable pub risk_of : String → RiskLevel
risk_of s =
    if s == "low"
    then low
    else if s == "medium"
    then medium
    else if s == "high"
    then high
    else if s == "critical"
    then critical
    else medium

module _ {N : Type 0} where
  unfoldable pub chain_text : Value N → String
  unfolding join
  chain_text (text s) = s
  chain_text (arr xs) = join " → " (present (map as_str (to_list xs)))
  chain_text _ = ""

  -- An `Option<Value>` with a default: missing and null are none.
  unfoldable pub chain_value : Option (Value N) → Option (Value N)
  chain_value (some null) = none
  chain_value v = v

module _ (P : Platform) where
  open P use {
    Number, F64, as_f64, f64_lit, from_str, to_lowercase, add_f64, sub_f64, mul_f64, div_f64,
    nat_f64, ge_f64, f64_as_usize,
  }

  -- `confidence`: 0.8 if it is missing, an error if it is no number.
  unfoldable pub confidence_of : Option (Value Number) → Option F64
  confidence_of none = some (f64_lit "0.8")
  confidence_of (some v) = do n ← as_number v; as_f64 n

  -- The members of `VerdictOutput`, none if serde refuses the text.
  unfoldable pub verdict_output :
      Value Number → LlmProvider → String → String → Option (VerdictResult F64)
  unfolding decision_of risk_of chain_text chain_value confidence_of
  verdict_output v provider model content = do
    decision ← get "decision" v >>= as_str
    reason ← get "reason" v >>= as_str
    risk ← get "risk_level" v >>= as_str
    confidence ← confidence_of (get "confidence" v)
    some (record {
      decision = decision_of (to_lowercase decision);
      reason = reason;
      risk_level = risk_of (to_lowercase risk);
      raw_response = content;
      provider = provider;
      model = model;
      confidence = confidence;
      reasoning_chain = chain_value (get "reasoning_chain" v) >>= λ c. some (chain_text c);
    })

  abbrev pub or_parse_error : Option (VerdictResult F64) → String → Result (VerdictResult F64)
  or_parse_error none message = err (open_ai message)
  or_parse_error (some v) message = ok v

  -- `parse_error` stands for serde's message.
  unfoldable pub parse_verdict_json :
      (String → String) → String → LlmProvider → String → Result (VerdictResult F64)
  unfolding trim trim_start_matches trim_end_matches verdict_output
  parse_verdict_json parse_error content provider model =
      let cleaned = trim (trim_end_matches "```" (trim_start_matches "```json" content)) in
      or_parse_error (from_str cleaned >>= λ v. verdict_output v provider model content)
        ("Failed to parse verdict JSON: " <> (parse_error cleaned <> (". Raw: " <> content)))

-- `ProviderMetrics` without `healthy`, which is a flag of the world.
pub record ProviderMetrics (F : Type 0) : Type 0 where
  pub last_latency_ms : F
  pub avg_latency_ms : F
  pub p50_latency_ms : F
  pub p95_latency_ms : F
  pub p99_latency_ms : F
  pub total_requests : ℕ
  pub total_tokens : ℕ
  pub estimated_cost : F
  pub latencies : List F

module _ (P : Platform) where
  open P use {F64, add_f64, sub_f64, mul_f64, div_f64, nat_f64, ge_f64, f64_as_usize, f64_lit}

  -- `push`, then `remove(0)` if there are more than 1000
  unfoldable pub push_latency : F64 → List F64 → List F64
  push_latency x xs = let ys = xs ++ (x ∷ []) in if ltb 1000 (length ys) then drop 1 ys else ys

  abbrev percentile : String → List F64 → F64 → F64
  percentile p sorted old =
      let len = length sorted in
      unwrap_or
        (get_elem? sorted (min (f64_as_usize (mul_f64 (nat_f64 len) (f64_lit p))) (len - 1))) old

  unfoldable pub record_request : F64 → ℕ → ProviderMetrics F64 → ProviderMetrics F64
  unfolding push_latency order_by
  record_request latency_ms tokens_used m =
      let total = (m.total_requests + 1) % 2 ^ 64 in
      let latencies = push_latency latency_ms m.latencies in
      let sorted = order_by (λ a b. ge_f64 b a) latencies in
      record {
        last_latency_ms = latency_ms;
        avg_latency_ms =
            add_f64 m.avg_latency_ms
              (div_f64 (sub_f64 latency_ms m.avg_latency_ms) (nat_f64 total));
        p50_latency_ms = unwrap_or (get_elem? sorted (length sorted / 2)) m.p50_latency_ms;
        p95_latency_ms = percentile "0.95" sorted m.p95_latency_ms;
        p99_latency_ms = percentile "0.99" sorted m.p99_latency_ms;
        total_requests = total;
        total_tokens = (m.total_tokens + tokens_used) % 2 ^ 64;
        estimated_cost =
            add_f64 m.estimated_cost
              (mul_f64 (div_f64 (nat_f64 tokens_used) (f64_lit "1000.0")) (f64_lit "0.003"));
        latencies = latencies;
      }
