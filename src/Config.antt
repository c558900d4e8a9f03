-- ===== src/Config.antt =====
-- config.rs: the configuration, read from the environment and the defaults of its profile, and
-- checked. A variable is what `std::env::var` answers for its name.
pub mod Valid
use Prim.Native.String.{len}
use deko.Prelude.{
  ℕ, ◌^◌, ltb, String, Bool, true, false, not, ◌&&◌, ◌||◌, ◌⊎◌, inl, inr, Option, none, some, List,
  [], ◌∷◌, map, any, is_some, unwrap_or, ◌==◌, string_eq, if◌then◌else◌, ◌>>=◌,
}
use deko.Prelude.Int.{ℤ, pos, negsuc}
use deko.Prelude.Parse.{split, starts_with, parse_unsigned, parse_i64}
use deko.Prelude.Text.{trim}
use deko.Llm.{
  LlmProvider, provider_open_ai, provider_gemini, provider_anthropic, provider_ollama,
  provider_azure, provider_bedrock, provider_custom,
}

pub data Environment : Type 0 where
  dev staging prod : Environment

abbrev pub is_production : Environment → Bool
is_production prod = true
is_production _ = false

pub record Config : Type 0 where
  pub port : ℕ
  pub env : Environment
  pub admin_password : String
  pub database_url : String
  pub database_read_url : Option String
  pub default_provider : LlmProvider
  pub default_model : String
  pub openai_api_key : Option String
  pub openai_model : String
  pub gemini_api_key : Option String
  pub gemini_model : String
  pub api_key_secret : String
  pub allowed_origins : List String
  pub rate_limit_per_minute : ℕ
  pub max_screenshot_size_mb : ℕ
  pub max_request_body_kb : ℕ
  pub openai_timeout_secs : ℕ
  pub gemini_timeout_secs : ℕ
  pub anthropic_api_key : Option String
  pub anthropic_model : String
  pub anthropic_timeout_secs : ℕ
  pub ollama_base_url : String
  pub ollama_model : String
  pub ollama_timeout_secs : ℕ
  pub azure_api_key : Option String
  pub azure_endpoint : String
  pub azure_deployment : String
  pub azure_api_version : String
  pub azure_timeout_secs : ℕ
  pub bedrock_model_id : String
  pub bedrock_region : String
  pub custom_provider_url : Option String
  pub custom_provider_model : String
  pub custom_provider_timeout_secs : ℕ
  pub processor_poll_interval_secs : ℕ
  pub action_ttl_secs : ℕ
  pub webhook_url : Option String
  pub jwt_secret : String
  pub jwt_expiry_secs : ℤ

pub record EnvProfile : Type 0 where
  pub default_model : String
  pub openai_model : String
  pub gemini_model : String
  pub allowed_origins : List String
  pub rate_limit_per_minute : ℕ
  pub max_screenshot_size_mb : ℕ
  pub max_request_body_kb : ℕ
  pub openai_timeout_secs : ℕ
  pub gemini_timeout_secs : ℕ
  pub anthropic_model : String
  pub anthropic_timeout_secs : ℕ
  pub ollama_base_url : String
  pub ollama_model : String
  pub ollama_timeout_secs : ℕ
  pub azure_endpoint : String
  pub azure_deployment : String
  pub azure_api_version : String
  pub azure_timeout_secs : ℕ
  pub bedrock_model_id : String
  pub bedrock_region : String
  pub custom_provider_model : String
  pub custom_provider_timeout_secs : ℕ
  pub processor_poll_interval_secs : ℕ
  pub action_ttl_secs : ℕ

unfoldable pub defaults : Environment → EnvProfile
defaults dev = record {
  default_model = "gemini-2.0-flash";
  openai_model = "gpt-4o";
  gemini_model = "gemini-2.0-flash";
  anthropic_model = "claude-sonnet-4-20250514";
  ollama_base_url = "http://localhost:11434";
  ollama_model = "llama3.2";
  allowed_origins = "*" ∷ [];
  rate_limit_per_minute = 120;
  max_screenshot_size_mb = 10;
  max_request_body_kb = 1024;
  openai_timeout_secs = 60;
  gemini_timeout_secs = 60;
  anthropic_timeout_secs = 60;
  ollama_timeout_secs = 120;
  azure_endpoint = "https://your-resource.openai.azure.com";
  azure_deployment = "gpt-4o";
  azure_api_version = "2024-08-01-preview";
  azure_timeout_secs = 60;
  bedrock_model_id = "anthropic.claude-sonnet-4-20250514";
  bedrock_region = "us-east-1";
  custom_provider_model = "custom-model";
  custom_provider_timeout_secs = 60;
  processor_poll_interval_secs = 1;
  action_ttl_secs = 3600;
}
defaults staging = record {
  default_model = "gemini-2.0-flash";
  openai_model = "gpt-4o";
  gemini_model = "gemini-2.0-flash";
  anthropic_model = "claude-sonnet-4-20250514";
  ollama_base_url = "http://localhost:11434";
  ollama_model = "llama3.2";
  allowed_origins = "http://localhost:8000" ∷ "http://localhost:3000" ∷ [];
  rate_limit_per_minute = 60;
  max_screenshot_size_mb = 10;
  max_request_body_kb = 512;
  openai_timeout_secs = 30;
  gemini_timeout_secs = 30;
  anthropic_timeout_secs = 30;
  ollama_timeout_secs = 120;
  azure_endpoint = "https://your-resource.openai.azure.com";
  azure_deployment = "gpt-4o";
  azure_api_version = "2024-08-01-preview";
  azure_timeout_secs = 30;
  bedrock_model_id = "anthropic.claude-sonnet-4-20250514";
  bedrock_region = "us-east-1";
  custom_provider_model = "custom-model";
  custom_provider_timeout_secs = 30;
  processor_poll_interval_secs = 2;
  action_ttl_secs = 1800;
}
defaults prod = record {
  default_model = "gemini-2.0-flash";
  openai_model = "gpt-4o";
  gemini_model = "gemini-2.0-flash";
  anthropic_model = "claude-sonnet-4-20250514";
  ollama_base_url = "http://localhost:11434";
  ollama_model = "llama3.2";
  allowed_origins = [];
  rate_limit_per_minute = 30;
  max_screenshot_size_mb = 5;
  max_request_body_kb = 256;
  openai_timeout_secs = 15;
  gemini_timeout_secs = 15;
  anthropic_timeout_secs = 15;
  ollama_timeout_secs = 120;
  azure_endpoint = "https://your-resource.openai.azure.com";
  azure_deployment = "gpt-4o";
  azure_api_version = "2024-08-01-preview";
  azure_timeout_secs = 15;
  bedrock_model_id = "anthropic.claude-sonnet-4-20250514";
  bedrock_region = "us-east-1";
  custom_provider_model = "custom-model";
  custom_provider_timeout_secs = 15;
  processor_poll_interval_secs = 2;
  action_ttl_secs = 1800;
}

-- `ok().and_then(parse).unwrap_or(default)`
abbrev unsigned_or : ℕ → Option String → ℕ → ℕ
unsigned_or limit v default = unwrap_or (v >>= parse_unsigned limit) default

abbrev origins_or : Option String → List String → List String
origins_or none default = default
origins_or (some s) default = map trim (split b',' s)

unfoldable pub environment_of : Option String → Environment
environment_of none = dev
environment_of (some s) = if s == "prod" then prod else if s == "staging" then staging else dev

unfoldable pub provider_of : Option String → LlmProvider
provider_of none = provider_gemini
provider_of (some s) =
    if s == "openai"
    then provider_open_ai
    else if s == "gemini"
    then provider_gemini
    else if s == "anthropic"
    then provider_anthropic
    else if s == "ollama"
    then provider_ollama
    else if s == "azure"
    then provider_azure
    else if s == "bedrock"
    then provider_bedrock
    else if s == "custom"
    then provider_custom
    else provider_gemini

-- `or_else`
abbrev first_of : Option String → Option String → Option String
first_of none w = w
first_of (some v) w = some v

-- The configuration before it is checked; the three required variables are given, and `fresh` is
-- the uuid that stands for a missing JWT secret.
unfoldable pub read : (String → Option String) → String → String → String → String → ℤ → Config
unfolding defaults environment_of provider_of parse_unsigned split
read env fresh admin_password database_url api_key_secret jwt_expiry_secs =
    let environment = environment_of (env "DEKO_ENV") in
    let profile = defaults environment in
    record {
      port = unsigned_or (2 ^ 16) (env "DEKO_PORT") 8000;
      env = environment;
      admin_password = admin_password;
      database_url = database_url;
      database_read_url = env "DEKO_DATABASE_READ_URL";
      default_provider =
          provider_of (first_of (env "DEKO_DEFAULT_PROVIDER") (env "LLM_DEFAULT_PROVIDER"));
      default_model = unwrap_or (env "LLM_DEFAULT_MODEL") profile.default_model;
      openai_api_key = env "OPENAI_API_KEY";
      openai_model = unwrap_or (env "OPENAI_MODEL") profile.openai_model;
      gemini_api_key = env "GEMINI_API_KEY";
      gemini_model = unwrap_or (env "GEMINI_MODEL") profile.gemini_model;
      api_key_secret = api_key_secret;
      allowed_origins = origins_or (env "DEKO_ALLOWED_ORIGINS") profile.allowed_origins;
      rate_limit_per_minute =
          unsigned_or (2 ^ 64) (env "DEKO_RATE_LIMIT_PER_MINUTE") profile.rate_limit_per_minute;
      max_screenshot_size_mb =
          unsigned_or (2 ^ 64) (env "DEKO_MAX_SCREENSHOT_SIZE_MB") profile.max_screenshot_size_mb;
      max_request_body_kb =
          unsigned_or (2 ^ 64) (env "DEKO_MAX_REQUEST_BODY_KB") profile.max_request_body_kb;
      openai_timeout_secs =
          unsigned_or (2 ^ 64) (env "OPENAI_TIMEOUT_SECS") profile.openai_timeout_secs;
      gemini_timeout_secs =
          unsigned_or (2 ^ 64) (env "GEMINI_TIMEOUT_SECS") profile.gemini_timeout_secs;
      anthropic_api_key = env "ANTHROPIC_API_KEY";
      anthropic_model = unwrap_or (env "ANTHROPIC_MODEL") profile.anthropic_model;
      anthropic_timeout_secs =
          unsigned_or (2 ^ 64) (env "ANTHROPIC_TIMEOUT_SECS") profile.anthropic_timeout_secs;
      ollama_base_url = unwrap_or (env "OLLAMA_BASE_URL") profile.ollama_base_url;
      ollama_model = unwrap_or (env "OLLAMA_MODEL") profile.ollama_model;
      ollama_timeout_secs =
          unsigned_or (2 ^ 64) (env "OLLAMA_TIMEOUT_SECS") profile.ollama_timeout_secs;
      azure_api_key = env "AZURE_API_KEY";
      azure_endpoint = unwrap_or (env "AZURE_ENDPOINT") profile.azure_endpoint;
      azure_deployment = unwrap_or (env "AZURE_DEPLOYMENT") profile.azure_deployment;
      azure_api_version = unwrap_or (env "AZURE_API_VERSION") profile.azure_api_version;
      azure_timeout_secs =
          unsigned_or (2 ^ 64) (env "AZURE_TIMEOUT_SECS") profile.azure_timeout_secs;
      bedrock_model_id = unwrap_or (env "BEDROCK_MODEL_ID") profile.bedrock_model_id;
      bedrock_region = unwrap_or (env "BEDROCK_REGION") profile.bedrock_region;
      custom_provider_url = env "CUSTOM_PROVIDER_URL";
      custom_provider_model = unwrap_or (env "CUSTOM_PROVIDER_MODEL") profile.custom_provider_model;
      custom_provider_timeout_secs =
          unsigned_or (2 ^ 64) (env "CUSTOM_PROVIDER_TIMEOUT_SECS")
            profile.custom_provider_timeout_secs;
      processor_poll_interval_secs =
          unsigned_or (2 ^ 64) (env "DEKO_PROCESSOR_POLL_INTERVAL_SECS")
            profile.processor_poll_interval_secs;
      action_ttl_secs = unsigned_or (2 ^ 64) (env "DEKO_ACTION_TTL_SECS") profile.action_ttl_secs;
      webhook_url = env "DEKO_WEBHOOK_URL";
      jwt_secret = unwrap_or (env "DEKO_JWT_SECRET") fresh;
      jwt_expiry_secs = jwt_expiry_secs;
    }

abbrev is_empty_or_missing : Option String → Bool
is_empty_or_missing none = true
is_empty_or_missing (some s) = s == ""

abbrev is_short : Option String → Bool
is_short none = false
is_short (some key) = ltb (len key) 5

-- The message of the first check that fails.
abbrev pub first_error : List (Bool × String) → Option String
first_error [] = none
first_error ((failed, message) ∷ checks) = if failed then some message else first_error checks

-- The check of the key of the default provider.
unfoldable pub provider_check : Config → LlmProvider → Bool × String
unfolding starts_with
provider_check c provider_open_ai = (
  not (elim c.openai_api_key [ none ↦ false | some key ↦ starts_with "sk-" key ]),
  "OPENAI_API_KEY must be set and start with 'sk-' when using OpenAI provider",
)
provider_check c provider_gemini =
    (is_empty_or_missing c.gemini_api_key, "GEMINI_API_KEY must be set when using Gemini provider")
provider_check c provider_anthropic = (
  is_empty_or_missing c.anthropic_api_key,
  "ANTHROPIC_API_KEY must be set when using Anthropic provider",
)
provider_check c provider_azure = (
  is_empty_or_missing c.azure_api_key,
  "AZURE_API_KEY must be set when using Azure OpenAI provider",
)
provider_check c provider_ollama = (false, "")
provider_check c provider_bedrock = (false, "")
provider_check c provider_custom = (false, "")

unfoldable pub checks : Config → List (Bool × String)
unfolding provider_check starts_with
checks c =
    (
      (c.admin_password == "changeme") && is_production c.env,
      "DEKO_ADMIN_PASSWORD must be changed in production",
    )
    ∷ (ltb (len c.api_key_secret) 16, "DEKO_API_KEY_SECRET must be at least 16 characters")
    ∷ (ltb (len c.admin_password) 8, "DEKO_ADMIN_PASSWORD must be at least 8 characters")
    ∷ (is_short c.openai_api_key, "OPENAI_API_KEY appears to be too short (min 5 characters)")
    ∷ (is_short c.gemini_api_key, "GEMINI_API_KEY appears to be too short (min 5 characters)")
    ∷ (
      is_production c.env && any (λ o. o == "*") c.allowed_origins,
      "Wildcard CORS origin '*' is not allowed in production. Set DEKO_ALLOWED_ORIGINS to specific origins.",
    )
    ∷ (
      is_production c.env && elim c.allowed_origins [ [] ↦ true | _ ∷ _ ↦ false ],
      "DEKO_ALLOWED_ORIGINS must be explicitly set in production. Set at least one allowed origin.",
    )
    ∷ (
      starts_with "postgres://" c.database_url || starts_with "postgresql://" c.database_url,
      "PostgreSQL is not supported in this build (pilot ships sqlite only); use a sqlite: URL.",
    )
    ∷ provider_check c c.default_provider
    ∷ []

-- The error of `validate`, none if the configuration passes.
unfoldable pub validate : Config → Option String
unfolding checks
validate c = first_error (checks c)

unfoldable pub checked : Config → String ⊎ Config
unfolding validate
checked c = elim (validate c) [ none ↦ inr c | some message ↦ inl message ]

abbrev is_positive : ℤ → Bool
is_positive (pos n) = ltb 0 n
is_positive (negsuc n) = false

-- A variable that has to be set.
abbrev required : Option String → String → (String → String ⊎ Config) → String ⊎ Config
required none message next = inl message
required (some v) message next = next v

unfoldable pub from_env : (String → Option String) → String → String ⊎ Config
unfolding parse_i64
from_env env fresh =
    required (env "DEKO_ADMIN_PASSWORD") "DEKO_ADMIN_PASSWORD is required" (λ admin_password.
      required (env "DEKO_DATABASE_URL") "DEKO_DATABASE_URL is required" (λ database_url.
        required (env "DEKO_API_KEY_SECRET") "DEKO_API_KEY_SECRET is required" (λ api_key_secret.
          let jwt_expiry_secs = unwrap_or (env "DEKO_JWT_EXPIRY_SECS" >>= parse_i64) (pos 3600) in
          if is_positive jwt_expiry_secs
          then checked (read env fresh admin_password database_url api_key_secret jwt_expiry_secs)
          else inl "DEKO_JWT_EXPIRY_SECS must be a positive number")))
