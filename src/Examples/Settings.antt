-- ===== src/Examples/Settings.antt =====
-- A configuration of production, and a provider that answers.
use deko.Prelude.{
  nat_eq, ℕ, ltb, ◌⊎◌, ◌≡◌, refl, String, inl, inr, Option, none, some, [], ◌∷◌, ◌==◌, string_eq,
  if◌then◌else◌,
}
use deko.Prelude.Int.{pos}
use deko.Prelude.Parse.{starts_with, split, digits, number_of, parse_unsigned, parse_i64}
use deko.Prelude.Text.{trim}
use deko.Json.{text, object}
use deko.Models.{approved, low}
use deko.Errors.{ok, err}
use deko.Platform.{Platform}
use deko.Llm.{
  VerdictResult, provider_ollama, parse_verdict_json, verdict_output, decision_of, risk_of,
  confidence_of,
}
use deko.Config.{
  Config, environment_of, provider_of, provider_check, checks, validate, checked, read, defaults,
  from_env,
}
use deko.Config.Valid.{IsValid, from_env-IsValid}
use deko.Providers.Send.{HttpAnswer, checked_body, parsed, send_raw, send_retry}
use deko.Providers.Answer.{ollama_answer}
use deko.Providers.Call.{unified_provider, analyze_action, call_ollama, model_for_provider}
use deko.Providers.Retries.{Decides, IsFailure, error_of, send_retry-FirstDecides}
use deko.Providers.Tagged.{Reads, analyze_action-Reads}
use deko.Examples.{test_platform}

abbrev variables : String → Option String
variables name =
    if name == "DEKO_ENV"
    then some "prod"
    else if name == "DEKO_ADMIN_PASSWORD"
    then some "correct horse"
    else if name == "DEKO_DATABASE_URL"
    then some "sqlite:deko.db"
    else if name == "DEKO_API_KEY_SECRET"
    then some "0123456789abcdef"
    else if name == "DEKO_ALLOWED_ORIGINS"
    then some "https://example.org"
    else if name == "GEMINI_API_KEY"
    then some "abcdef"
    else none

abbrev a_config : Config
a_config = read variables "7" "correct horse" "sqlite:deko.db" "0123456789abcdef" (pos 3600)

from_env-IsValid_example : IsValid a_config
unfolding from_env checked validate checks provider_check read environment_of provider_of defaults
    parse_unsigned parse_i64 split digits starts_with number_of string_eq nat_eq trim
from_env-IsValid_example = from_env-IsValid variables "7" a_config refl

-- The parser reads the answer of the server, and the verdict inside it.
abbrev answering : Platform
answering = record test_platform {
  from_str = λ s. some (
      object (
        ("response", text "{}")
        ∷ ("decision", text "approved")
        ∷ ("reason", text "read only")
        ∷ ("risk_level", text "low")
        ∷ []));
}

abbrev an_answer : HttpAnswer
an_answer = record { status = 200; status_text = "200 OK"; body = "{}" }

abbrev a_reading : VerdictResult ℕ
a_reading = record {
  decision = approved;
  reason = "read only";
  risk_level = low;
  raw_response = "{}";
  provider = provider_ollama;
  model = "llama3.2";
  confidence = 0;
  reasoning_chain = none;
}

analyze_action-Reads_example :
    Reads answering a_config
      (λ s. s)
      (λ n r. inr an_answer)
      (λ r m b. inl "")
      "read"
      none
      none
      ""
      provider_ollama
      a_reading
unfolding unified_provider analyze_action call_ollama send_raw checked_body parsed ollama_answer
    parse_verdict_json verdict_output model_for_provider read decision_of risk_of confidence_of
    string_eq
analyze_action-Reads_example =
    analyze_action-Reads answering a_config (λ s. s) (λ n r. inr an_answer) (λ r m b. inl "") "read"
      none none "" provider_ollama a_reading refl

-- The first request fails.
abbrev answers : ℕ → String ⊎ HttpAnswer
answers n = if ltb 0 n then inr an_answer else inl "timeout"

abbrev Decided : ℕ → Type 0
Decided n =
    Decides answering (λ s. s) ollama_answer ok answers (answers n)
      (send_retry answering (λ s. s) ollama_answer ok answers)

send_retry-FirstDecides_example :
    Decided 0
    ⊎ (IsFailure (answers 0)
        × (Decided 1
            ⊎ (IsFailure (answers 1)
                × (Decided 2
                    ⊎ (IsFailure (answers 2)
                        × (send_retry answering (λ s. s) ollama_answer ok answers
                            ≡ err (error_of (answers 2))))))))
send_retry-FirstDecides_example =
    send_retry-FirstDecides answering (λ s. s) ollama_answer ok answers
