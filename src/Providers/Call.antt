-- ===== src/Providers/Call.antt =====
-- The calls of the seven providers, and UnifiedProvider as a provider. `http` answers the request
-- of a call by its number, which only send_retry makes more than one of; `bedrock` is the SDK's
-- `invoke_model`, for a region, a model and a body. The timeout of the client is left out.
use deko.Prelude.{ℕ, String, ◌<>◌, ◌⊎◌, inl, inr, Option, none, some, [], ◌∷◌}
use deko.Prelude.Text.{trim_end_matches}
use deko.Json.{Value}
use deko.Errors.{open_ai, Result, ok, err, ◌>>=◌}
use deko.Llm.{
  LlmProvider, provider_open_ai, provider_gemini, provider_anthropic, provider_ollama,
  provider_azure, provider_bedrock, provider_custom, VerdictResult, Provider, parse_verdict_json,
}
use deko.Config.{Config}
use deko.Platform.{Platform}
use deko.Providers.Prompt.{system_prompt, user_prompt, user_text, gemini_text}
use deko.Providers.Wire.{
  with_image, chat_text, chat_image, chat_message, chat_request, gemini_part, inline_data,
  gemini_request, anthropic_text, source_part, anthropic_request, bedrock_text, bedrock_request,
  ollama_request, custom_request,
}
use deko.Providers.Answer.{chat_answer, gemini_answer, content_answer, ollama_answer}
use deko.Providers.Send.{
  HttpRequest, HttpAnswer, send_raw, send_chat_request, send_anthropic, send_raw_custom, send_retry,
  parsed,
}

-- `as_deref().ok_or_else(…)?`
abbrev pub configured : {A : Type 0} → Option String → String → (String → Result A) → Result A
configured none message next = err (open_ai message)
configured (some v) message next = next v

abbrev pub gemini_text_of : Option String → Result String
gemini_text_of none = err (open_ai "Gemini returned empty response")
gemini_text_of (some t) = ok t

abbrev json_header : String × String
json_header = ("Content-Type", "application/json")

module _ (P : Platform) (config : Config) (parse_error : String → String)
    (http : ℕ → HttpRequest P.Number → String ⊎ HttpAnswer)
    (bedrock : String → String → Value P.Number → String ⊎ String) where
  open P use {Number, F64}

  unfoldable pub model_for_provider : LlmProvider → String
  model_for_provider provider_open_ai = config.openai_model
  model_for_provider provider_gemini = config.gemini_model
  model_for_provider provider_anthropic = config.anthropic_model
  model_for_provider provider_ollama = config.ollama_model
  model_for_provider provider_azure = "azure/" <> config.azure_deployment
  model_for_provider provider_bedrock = config.bedrock_model_id
  model_for_provider provider_custom = config.custom_provider_model

  -- The last step of each call.
  abbrev pub verdict_of : LlmProvider → String → Result (VerdictResult F64)
  verdict_of provider content =
      parse_verdict_json P parse_error content provider (model_for_provider provider)

  unfoldable pub azure_url : String
  unfolding trim_end_matches
  azure_url =
      trim_end_matches "/" config.azure_endpoint
      <> ("openai/deployments/"
          <> (config.azure_deployment
              <> ("/chat/completions?api-version=" <> config.azure_api_version)))

  module _ (intent : String) (payload screenshot : Option String) (policy_context : String) where
    -- The requests, with the key where there is one.
    unfoldable pub openai_http : String → HttpRequest Number
    unfolding system_prompt user_text chat_text chat_image chat_message chat_request
        model_for_provider
    openai_http api_key = record {
      url = "https://api.openai.com/v1/chat/completions";
      headers = json_header ∷ ("Authorization", "Bearer " <> api_key) ∷ [];
      body =
          chat_request P (model_for_provider provider_open_ai)
            (chat_message P "system" (chat_text P system_prompt ∷ [])
              ∷ chat_message P "user" (
                  chat_text P (user_text intent payload policy_context)
                  ∷ with_image (chat_image P) screenshot)
              ∷ [])
            512 "0.0" (some "json_object");
    }

    unfoldable pub gemini_http : String → HttpRequest Number
    unfolding gemini_text gemini_part inline_data gemini_request
    gemini_http api_key = record {
      url =
          "https://generativelanguage.googleapis.com/v1beta/models/"
          <> (config.gemini_model <> (":generateContent?key=" <> api_key));
      headers = json_header ∷ [];
      body = gemini_request P (
          gemini_part P (gemini_text intent payload policy_context)
          ∷ with_image (inline_data P) screenshot);
    }

    unfoldable pub anthropic_http : String → HttpRequest Number
    unfolding system_prompt user_prompt anthropic_text source_part anthropic_request
    anthropic_http api_key = record {
      url = "https://api.anthropic.com/v1/messages";
      headers = ("x-api-key", api_key) ∷ ("anthropic-version", "2023-06-01") ∷ json_header ∷ [];
      body = anthropic_request P config.anthropic_model system_prompt (
          anthropic_text P (user_prompt intent payload policy_context)
          ∷ with_image (source_part P) screenshot);
    }

    unfoldable pub ollama_http : HttpRequest Number
    unfolding system_prompt user_prompt ollama_request trim_end_matches
    ollama_http = record {
      url = trim_end_matches "/" config.ollama_base_url <> "/api/generate";
      headers = json_header ∷ [];
      body =
          ollama_request P config.ollama_model system_prompt
            (user_prompt intent payload policy_context);
    }

    unfoldable pub azure_http : String → HttpRequest Number
    unfolding system_prompt user_prompt chat_text chat_image chat_message chat_request azure_url
    azure_http api_key = record {
      url = azure_url;
      headers = json_header ∷ ("api-key", api_key) ∷ [];
      body =
          chat_request P config.azure_deployment
            (chat_message P "system" (chat_text P system_prompt ∷ [])
              ∷ chat_message P "user" (
                  chat_text P (user_prompt intent payload policy_context)
                  ∷ with_image (chat_image P) screenshot)
              ∷ [])
            1024 "0.1" none;
    }

    unfoldable pub bedrock_body : Value Number
    unfolding system_prompt user_prompt bedrock_text source_part bedrock_request
    bedrock_body = bedrock_request P system_prompt (
        bedrock_text P (user_prompt intent payload policy_context)
        ∷ with_image (source_part P) screenshot)

    unfoldable pub custom_http : String → HttpRequest Number
    unfolding system_prompt custom_request
    custom_http url = record {
      url = url;
      headers = json_header ∷ [];
      body =
          custom_request P config.custom_provider_model intent payload screenshot policy_context
            system_prompt;
    }

    unfoldable pub call_openai : Result (VerdictResult F64)
    unfolding openai_http send_chat_request parse_verdict_json
    call_openai = configured config.openai_api_key "OPENAI_API_KEY not configured" (λ api_key.
        send_chat_request P parse_error (http 0 (openai_http api_key))
        >>= verdict_of provider_open_ai)

    unfoldable pub call_gemini : Result (VerdictResult F64)
    unfolding gemini_http gemini_answer send_retry parse_verdict_json
    call_gemini = configured config.gemini_api_key "GEMINI_API_KEY not configured" (λ api_key.
        send_retry P parse_error gemini_answer gemini_text_of (λ n. http n (gemini_http api_key))
        >>= verdict_of provider_gemini)

    unfoldable pub call_anthropic : Result (VerdictResult F64)
    unfolding anthropic_http send_anthropic parse_verdict_json
    call_anthropic =
        configured config.anthropic_api_key "ANTHROPIC_API_KEY not configured" (λ api_key.
          send_anthropic P parse_error (http 0 (anthropic_http api_key))
          >>= verdict_of provider_anthropic)

    unfoldable pub call_ollama : Result (VerdictResult F64)
    unfolding ollama_http ollama_answer send_raw parse_verdict_json
    call_ollama =
        send_raw P parse_error ollama_answer (http 0 ollama_http) >>= verdict_of provider_ollama

    unfoldable pub call_azure : Result (VerdictResult F64)
    unfolding azure_http chat_answer send_raw parse_verdict_json
    call_azure = configured config.azure_api_key "AZURE_API_KEY not configured" (λ api_key.
        send_raw P parse_error chat_answer (http 0 (azure_http api_key))
        >>= verdict_of provider_azure)

    -- What the SDK answers.
    unfoldable pub bedrock_answer : String ⊎ String → Result String
    unfolding content_answer parsed
    bedrock_answer (inl e) = err (open_ai ("Bedrock request failed: " <> e))
    bedrock_answer (inr body) =
        parsed P parse_error "Failed to parse Bedrock response: " content_answer body

    unfoldable pub call_bedrock : Result (VerdictResult F64)
    unfolding bedrock_body bedrock_answer parse_verdict_json
    call_bedrock =
        bedrock_answer (bedrock config.bedrock_region config.bedrock_model_id bedrock_body)
        >>= verdict_of provider_bedrock

    unfoldable pub call_custom : Result (VerdictResult F64)
    unfolding custom_http send_raw_custom parse_verdict_json
    call_custom = configured config.custom_provider_url "CUSTOM_PROVIDER_URL not configured" (λ url.
        send_raw_custom P parse_error (http 0 (custom_http url)) >>= verdict_of provider_custom)

    unfoldable pub analyze_action : LlmProvider → Result (VerdictResult F64)
    unfolding call_openai call_gemini call_anthropic call_ollama call_azure call_bedrock call_custom
    analyze_action provider_open_ai = call_openai
    analyze_action provider_gemini = call_gemini
    analyze_action provider_anthropic = call_anthropic
    analyze_action provider_ollama = call_ollama
    analyze_action provider_azure = call_azure
    analyze_action provider_bedrock = call_bedrock
    analyze_action provider_custom = call_custom

  -- `impl LLMProviderTrait for UnifiedProvider`
  unfoldable pub unified_provider : LlmProvider → Provider F64
  unfolding analyze_action model_for_provider
  unified_provider p = record {
    name = p;
    model_name = model_for_provider p;
    analyze_action = λ intent payload screenshot policy_context.
        analyze_action intent payload screenshot policy_context p;
  }
