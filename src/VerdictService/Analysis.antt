-- ===== src/VerdictService/Analysis.antt =====
-- services/verdict.rs: `try_llm_analysis`, which asks the providers in order, and the metrics that
-- it moves (services/metrics.rs).
use deko.Prelude.{
  ℕ, ◌+◌, ◌*◌, ◌-◌, ◌/◌, ◌%◌, ◌^◌, max, String, ◌<>◌, false, Option, none, some, List, [], ◌∷◌,
  ◌++◌, length, head_of, unwrap_or, suc,
}
use deko.Prelude.Text.{show_nat}
use deko.Json.{Value, object, text, number}
use deko.Models.{Action, denied, high}
use deko.Errors.{Result, AppError, ok, err, to_string}
use deko.Llm.{provider_custom, show_provider, VerdictResult, Provider}
use deko.Platform.{Platform}
use deko.Audit.Record.{record_entry}
use deko.World.{World, Metrics, M, pure, attempt, update, ◌>>=◌}
use deko.VerdictService.{Service, estimate_token_count}

-- `fetch_add(1)`, which wraps.
abbrev pub incremented : ℕ → ℕ
incremented n = (n + 1) % 2 ^ 64

unfoldable pub inc_llm_call : Metrics → Metrics
inc_llm_call m = record m { llm_calls_total = incremented m.llm_calls_total }

unfoldable pub inc_llm_error : Metrics → Metrics
inc_llm_error m = record m { llm_errors = incremented m.llm_errors }

-- The running average; release builds wrap at 64 bits.
unfoldable pub record_llm_latency : ℕ → Metrics → Metrics
record_llm_latency ms m =
    let count = max m.llm_calls_total 1 in
    record m { llm_latency_ms = (m.llm_latency_ms * (count - 1) + ms) % 2 ^ 64 / count }

module _ (P : Platform) (svc : Service P.F64) (action : Action) (policy_context : String) where
  open P use {Number, F64, from_nat, clamp_f64, f64_lit}

  abbrev provider_name : Option (Provider F64) → Value Number
  provider_name none = Value.null
  provider_name (some p) = text (show_provider p.name)

  abbrev provider_model : Option (Provider F64) → Value Number
  provider_model none = Value.null
  provider_model (some p) = text p.model_name

  -- What is recorded when a provider answers.
  unfoldable pub record_success : VerdictResult F64 → World Number → World Number
  unfolding record_llm_latency estimate_token_count
  record_success verdict w = record w {
    metrics = record_llm_latency svc.elapsed w.metrics;
    llm_requests =
        w.llm_requests
        ++ ((svc.elapsed, estimate_token_count action.intent action.payload verdict.reason) ∷ []);
  }

  unfoldable pub clamped : VerdictResult F64 → VerdictResult F64
  clamped verdict = record verdict {
    confidence = clamp_f64 verdict.confidence (f64_lit "0.0") (f64_lit "1.0");
  }

  -- The answer when every provider failed.
  unfoldable pub exhausted : Option String → VerdictResult F64
  unfolding show_nat
  exhausted last_error = record {
    decision = denied;
    reason =
        "LLM analysis unavailable after trying "
        <> (show_nat (length svc.providers)
            <> (" provider(s): " <> unwrap_or last_error "unknown error"));
    risk_level = high;
    raw_response = "";
    provider = provider_custom;
    model = "none";
    confidence = f64_lit "0.0";
    reasoning_chain = some "all providers exhausted; fail-closed deny";
  }

  abbrev failure_details : ℕ → Provider F64 → List (Provider F64) → AppError → Value Number
  failure_details idx provider rest e = object (
      ("provider", text (show_provider provider.name))
      ∷ ("attempt", number (from_nat (idx + 1)))
      ∷ ("error", text (to_string e))
      ∷ ("will_retry_with", provider_name (head_of rest))
      ∷ [])

  -- The answer of one provider; `next` asks the rest.
  unfoldable pub on_answer :
      ℕ
      → Provider F64
      → List (Provider F64)
      → (Option String → M Number (VerdictResult F64))
      → Result (VerdictResult F64)
      → M Number (VerdictResult F64)
  unfolding record_success clamped to_string show_provider
  on_answer idx provider rest next (ok verdict) = do
    _ ← update (record_success verdict)
    pure (clamped verdict)
  on_answer idx provider rest next (err e) = do
    _ ← attempt (
        record_entry P (some action.id) "llm_provider_failed" (failure_details idx provider rest e))
    next (some (to_string e))

  abbrev pub answer_of : Provider F64 → Result (VerdictResult F64)
  answer_of provider =
      provider.analyze_action action.intent action.payload action.screenshot_base64 policy_context

  -- The loop over the providers, with the index of the next one.
  unfoldable pub ask_providers :
      ℕ → List (Provider F64) → Option String → M Number (VerdictResult F64)
  unfolding on_answer exhausted inc_llm_error
  ask_providers idx [] last_error = do
    _ ← update (λ w. record w { metrics = inc_llm_error w.metrics; provider_healthy = false })
    pure (exhausted last_error)
  ask_providers idx (provider ∷ rest) last_error =
      on_answer idx provider rest (ask_providers (suc idx) rest) (answer_of provider)

  unfoldable pub try_llm_analysis : M Number (VerdictResult F64)
  unfolding ask_providers inc_llm_call show_provider
  try_llm_analysis = do
    let first = head_of svc.providers
    let details = object (
        ("provider", provider_name first)
        ∷ ("model", provider_model first)
        ∷ ("chain_length", number (from_nat (length svc.providers)))
        ∷ [])
    _ ← update (λ w. record w { metrics = inc_llm_call w.metrics })
    _ ← attempt (record_entry P (some action.id) "llm_call_started" details)
    ask_providers 0 svc.providers none
