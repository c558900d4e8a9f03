-- ===== src/VerdictService.antt =====
-- services/verdict.rs: what the service is configured with, the provider chain, and the outcome of
-- the policies.
pub mod Policies
pub mod Keeps
pub mod Whole
pub mod Atomic
pub mod Limits
pub mod Analysis
pub mod Process
pub mod Success
pub mod Decides
pub mod Tables
pub mod Log
pub mod Decision
pub mod FailClosed
pub mod Pending
use Prim.Native.String.{len}
use deko.Prelude.{
  ℕ, ◌+◌, ◌/◌, max, String, Bool, true, false, not, ◌&&◌, Option, none, some, List, [], ◌∷◌, ◌++◌,
  any, is_some, unwrap_or, ◌==◌, string_eq, nat_eq, if◌then◌else◌,
}
use deko.Models.{RiskLevel}
use deko.Llm.{
  LlmProvider, provider_open_ai, provider_gemini, provider_anthropic, provider_ollama,
  provider_azure, provider_bedrock, provider_custom, show_provider, Provider,
}
use deko.Webhook.{WebhookService}

-- The part of `Config` that decides which providers are usable; `aws_keys` says that both AWS
-- variables are set.
pub record ProviderConfig : Type 0 where
  pub default_provider : LlmProvider
  pub openai_api_key : Option String
  pub gemini_api_key : Option String
  pub anthropic_api_key : Option String
  pub ollama_base_url : String
  pub azure_api_key : Option String
  pub azure_endpoint : String
  pub aws_keys : Bool
  pub custom_provider_url : Option String

unfoldable pub provider_is_configured : ProviderConfig → LlmProvider → Bool
provider_is_configured config provider_open_ai = is_some config.openai_api_key
provider_is_configured config provider_gemini = is_some config.gemini_api_key
provider_is_configured config provider_anthropic = is_some config.anthropic_api_key
provider_is_configured config provider_ollama = not (config.ollama_base_url == "")
provider_is_configured config provider_azure =
    is_some config.azure_api_key && not (config.azure_endpoint == "")
provider_is_configured config provider_bedrock = config.aws_keys
provider_is_configured config provider_custom = is_some config.custom_provider_url

abbrev pub candidates : List LlmProvider
candidates =
    provider_open_ai ∷ provider_gemini ∷ provider_anthropic ∷ provider_ollama ∷ provider_azure
    ∷ provider_bedrock ∷ provider_custom ∷ []

-- The derived equality: the names differ.
abbrev pub same_provider : LlmProvider → LlmProvider → Bool
same_provider p q = show_provider p == show_provider q

-- The loop over the candidates.
unfoldable pub push_providers :
    ProviderConfig → List LlmProvider → List LlmProvider → List LlmProvider
unfolding show_provider provider_is_configured
push_providers config order [] = order
push_providers config order (p ∷ ps) =
    push_providers config
      (if not (any (same_provider p) order) && provider_is_configured config p
        then order ++ (p ∷ [])
        else order)
      ps

unfoldable pub build_provider_chain : ProviderConfig → List LlmProvider
unfolding push_providers
build_provider_chain config = push_providers config (config.default_provider ∷ []) candidates

-- What a call of the service takes from around it: the fields of the service, the environment
-- variable for the dry run, the time that the provider takes (in ms), and the webhook's answers.
pub record Service (F : Type 0) : Type 0 where
  pub providers : List (Provider F)
  pub webhook : WebhookService
  pub is_dry_run : Bool
  pub elapsed : ℕ
  pub answers : ℕ → Bool
  pub url_error : String

pub record PolicyEvaluation : Type 0 where
  pub immediate_deny : Bool
  pub reason : Option String
  pub risk_level : Option RiskLevel
  pub matched_policy_id : Option String
  pub context : String

-- Lengths in bytes, one token for four.
unfoldable pub estimate_token_count : String → Option String → String → ℕ
estimate_token_count intent payload response =
    max ((len intent + len (unwrap_or payload "") + len response) / 4) 1
