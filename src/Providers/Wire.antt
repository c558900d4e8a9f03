-- ===== src/Providers/Wire.antt =====
-- The request types, as serde writes them, with the values that the calls give them.
use deko.Prelude.{ℕ, String, ◌<>◌, false, Option, none, some, List, [], ◌∷◌}
use deko.Json.{Value, bool, number, text, arr, from_list, object, optional}
use deko.Platform.{Platform}

-- `if let Some(img)`: the part for a screenshot, if there is one.
abbrev pub with_image : {A : Type 0} → (String → A) → Option String → List A
with_image part none = []
with_image part (some img) = part img ∷ []

module _ (P : Platform) where
  open P use {Number, from_nat, json_f64, f64_lit}

  abbrev pub array : List (Value Number) → Value Number
  array vs = arr (from_list vs)

  -- `ChatContent`, `ImageUrl` and `ChatMessage`
  unfoldable pub chat_text : String → Value Number
  chat_text t = object (("type", text "text") ∷ ("text", text t) ∷ [])

  unfoldable pub chat_image : String → Value Number
  chat_image img = object (
      ("type", text "image_url")
      ∷ ("image_url", object (("url", text ("data:image/png;base64," <> img)) ∷ []))
      ∷ [])

  unfoldable pub chat_message : String → List (Value Number) → Value Number
  chat_message role content = object (("role", text role) ∷ ("content", array content) ∷ [])

  -- `ResponseFormat`, left out if it is none
  abbrev pub response_format : Option String → List (String × Value Number)
  response_format none = []
  response_format (some t) = ("response_format", object (("type", text t) ∷ [])) ∷ []

  -- `ChatRequest`
  unfoldable pub chat_request :
      String → List (Value Number) → ℕ → String → Option String → Value Number
  chat_request model messages max_tokens temperature format = object (
      ("model", text model)
      ∷ ("messages", array messages)
      ∷ ("max_tokens", number (from_nat max_tokens))
      ∷ ("temperature", json_f64 (f64_lit temperature))
      ∷ response_format format)

  -- `GeminiPart`, `InlineData`, `GeminiContent`, `GenerationConfig` and `GeminiRequest`
  unfoldable pub gemini_part : String → Value Number
  gemini_part t = object (("text", text t) ∷ [])

  unfoldable pub inline_data : String → Value Number
  inline_data img =
      object
        (("inline_data", object (("mime_type", text "image/png") ∷ ("data", text img) ∷ [])) ∷ [])

  unfoldable pub gemini_request : List (Value Number) → Value Number
  gemini_request parts = object (
      ("contents", array (object (("role", text "user") ∷ ("parts", array parts) ∷ []) ∷ []))
      ∷ (
        "generation_config",
        object (
            ("temperature", json_f64 (f64_lit "0.0"))
            ∷ ("max_output_tokens", number (from_nat 512))
            ∷ []),
      )
      ∷ [])

  -- `ImageSource` and `BedrockImageSource`
  unfoldable pub image_source : String → Value Number
  image_source img =
      object (("type", text "base64") ∷ ("media_type", text "image/png") ∷ ("data", text img) ∷ [])

  -- `AnthropicContent`, `AnthropicMessage` and `AnthropicRequest`
  unfoldable pub anthropic_text : String → Value Number
  anthropic_text t = object (("text", text t) ∷ [])

  unfoldable pub source_part : String → Value Number
  unfolding image_source
  source_part img = object (("source", image_source img) ∷ ("type", text "image") ∷ [])

  unfoldable pub anthropic_request : String → String → List (Value Number) → Value Number
  unfolding chat_message
  anthropic_request model system content = object (
      ("model", text model)
      ∷ ("max_tokens", number (from_nat 1024))
      ∷ ("system", text system)
      ∷ ("messages", array (chat_message "user" content ∷ []))
      ∷ [])

  -- `BedrockContent`, `BedrockMessage` and `BedrockClaudeRequest`
  unfoldable pub bedrock_text : String → Value Number
  bedrock_text t = object (("text", text t) ∷ ("type", text "text") ∷ [])

  unfoldable pub bedrock_request : String → List (Value Number) → Value Number
  unfolding chat_message
  bedrock_request system content = object (
      ("anthropic_version", text "bedrock-2023-05-31")
      ∷ ("max_tokens", number (from_nat 1024))
      ∷ ("system", text system)
      ∷ ("messages", array (chat_message "user" content ∷ []))
      ∷ [])

  -- `OllamaOptions` and `OllamaRequest`
  unfoldable pub ollama_request : String → String → String → Value Number
  ollama_request model system prompt = object (
      ("model", text model)
      ∷ ("system", text system)
      ∷ ("prompt", text prompt)
      ∷ ("stream", bool false)
      ∷ (
        "options",
        object (
            ("temperature", json_f64 (f64_lit "0.1"))
            ∷ ("num_predict", number (from_nat 1024))
            ∷ []),
      )
      ∷ [])

  -- `CustomProviderRequest`
  unfoldable pub custom_request :
      String → String → Option String → Option String → String → String → Value Number
  custom_request model intent payload screenshot policy_context system = object (
      ("model", text model)
      ∷ ("intent", text intent)
      ∷ ("payload", optional payload)
      ∷ ("screenshot_base64", optional screenshot)
      ∷ ("policy_context", text policy_context)
      ∷ ("system_prompt", text system)
      ∷ [])
