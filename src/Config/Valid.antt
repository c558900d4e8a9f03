-- ===== src/Config/Valid.antt =====
-- What a configuration that was read satisfies.
use Prim.Native.String.{len}
use deko.Prelude.{
  ℕ, ◌≡◌, ◌≢◌, ◌≤◌, refl, ap, ◌∙◌, ◌>>=◌, String, Bool, true, false, not, ◌&&◌, ◌⊎◌, inl, inr,
  Option, none, some, List, [], ◌∷◌, any, All, arith, ltb, ◌==◌, string_eq, if◌then◌else◌,
  Bool-cases, unwrap_or,
}
use mathlib.Core.Path.{subst}
use mathlib.Core.Sum.{inr-injective, inl-ne-inr}
use deko.Prelude.Int.{ℤ, pos}
use deko.Prelude.Parse.{starts_with, parse_i64}
use deko.Llm.{
  LlmProvider, provider_open_ai, provider_gemini, provider_anthropic, provider_ollama,
  provider_azure, provider_bedrock, provider_custom,
}
use deko.Config.{
  Config, Environment, prod, is_production, is_empty_or_missing, first_error, provider_check,
  checks, validate, checked, required, read, from_env, is_positive,
}

true_ne_false : ◌≢◌ {A = Bool} true false
true_ne_false e = ground arith

-- The key that the default provider sends.
abbrev pub HasKey : Config → LlmProvider → Type 0
HasKey c provider_open_ai =
    (key : String) × (c.openai_api_key ≡ some key) × (starts_with "sk-" key ≡ true)
HasKey c provider_gemini = (key : String) × (c.gemini_api_key ≡ some key)
HasKey c provider_anthropic = (key : String) × (c.anthropic_api_key ≡ some key)
HasKey c provider_azure = (key : String) × (c.azure_api_key ≡ some key)
HasKey c _ = Unit

pub record IsValid (c : Config) : Type 0 where
  pub password : (c.env ≡ prod) → (c.admin_password == "changeme") ≡ false
  pub secret : 16 ≤ len c.api_key_secret
  pub password_length : 8 ≤ len c.admin_password
  pub origins :
      (c.env ≡ prod) → (any (λ o. o == "*") c.allowed_origins ≡ false) × (c.allowed_origins ≢ [])
  pub key : HasKey c c.default_provider
  pub expiry : is_positive c.jwt_expiry_secs ≡ true

-- The test of a check.
abbrev Passed : Bool × String → Type 0
Passed (failed, message) = failed ≡ false

first_error-Passed : (cs : List (Bool × String)) → first_error cs ≡ none → All Passed cs
first_error-Passed [] e = tt
first_error-Passed ((true, message) ∷ cs) e = absurd (ground arith)
first_error-Passed ((false, message) ∷ cs) e = (refl, first_error-Passed cs e)

present_key : (o : Option String) → is_empty_or_missing o ≡ false → (key : String) × (o ≡ some key)
present_key none e = absurd (ground arith)
present_key (some key) e = (key, refl)

sk_key :
    (o : Option String)
    → not (elim o [ none ↦ false | some key ↦ starts_with "sk-" key ]) ≡ false
    → (key : String) × (o ≡ some key) × (starts_with "sk-" key ≡ true)
sk_key none e = absurd (ground arith)
sk_key (some key) e = elim (Bool-cases (starts_with "sk-" key)) [
  | inl starts ↦ (key, refl, starts)
  | inr other ↦ absurd (true_ne_false (rw other at e))
]

provider_check-HasKey : (c : Config) (p : LlmProvider) → Passed (provider_check c p) → HasKey c p
unfolding provider_check
provider_check-HasKey c provider_open_ai e = sk_key _ e
provider_check-HasKey c provider_gemini e = present_key _ e
provider_check-HasKey c provider_anthropic e = present_key _ e
provider_check-HasKey c provider_azure e = present_key _ e
provider_check-HasKey c provider_ollama e = tt
provider_check-HasKey c provider_bedrock e = tt
provider_check-HasKey c provider_custom e = tt

in_production : (e : Environment) (b : Bool) → is_production e && b ≡ false → e ≡ prod → b ≡ false
in_production e b h p = rw p at h

-- The first argument of `&&` here is the other one.
not_in_production :
    (e : Environment) (b : Bool) → b && is_production e ≡ false → e ≡ prod → b ≡ false
not_in_production e true h p = rw p at h
not_in_production e false h p = refl

not_empty : (xs : List String) → elim xs [ [] ↦ true | _ ∷ _ ↦ false ] ≡ false → xs ≢ []
not_empty [] h e = absurd (true_ne_false h)
not_empty (x ∷ xs) h e = ground arith

at_least : (m n : ℕ) → ltb m n ≡ false → n ≤ m
at_least m n h = ground arith

validate-IsValid :
    (c : Config) → is_positive c.jwt_expiry_secs ≡ true → validate c ≡ none → IsValid c
unfolding validate checks
validate-IsValid c positive e =
    let (changed, (secret, (password, (_, (_, (wildcard, (listed, (_, (key, _))))))))) =
      first_error-Passed (checks c) e in
    record {
      password = not_in_production c.env _ changed;
      secret = at_least _ 16 secret;
      password_length = at_least _ 8 password;
      origins =
          λ p. (in_production c.env _ wildcard p, not_empty _ (in_production c.env _ listed p));
      key = provider_check-HasKey c c.default_provider key;
      expiry = positive;
    }

given :
    (v : Option String) (message : String) (next : String → String ⊎ Config) (c : Config)
    → required v message next ≡ inr c
    → (s : String) × (next s ≡ inr c)
given none message next c e = absurd (inl-ne-inr e)
given (some s) message next c e = (s, e)

validated-IsValid :
    (c d : Config) (o : Option String)
    → validate c ≡ o
    → is_positive c.jwt_expiry_secs ≡ true
    → elim o as (λ x. String ⊎ Config) [ none ↦ inr c | some message ↦ inl message ] ≡ inr d
    → IsValid d
validated-IsValid c d none v positive e =
    subst IsValid (inr-injective _ _ e) (validate-IsValid c positive v)
validated-IsValid c d (some message) v positive e = absurd (inl-ne-inr e)

checked-IsValid :
    (c d : Config) → is_positive c.jwt_expiry_secs ≡ true → checked c ≡ inr d → IsValid d
unfolding checked
checked-IsValid c d positive e = validated-IsValid c d (validate c) refl positive e

expiry-read :
    (env : String → Option String) (fresh a b s : String) (n : ℤ)
    → (read env fresh a b s n).jwt_expiry_secs ≡ n
unfolding read
expiry-read env fresh a b s n = refl

positive_first :
    (b : Bool) (c d : Config) (message : String)
    → (if b then checked c else inl message) ≡ inr d
    → (b ≡ true) × (checked c ≡ inr d)
positive_first true c d message e = (refl, e)
positive_first false c d message e = absurd (inl-ne-inr e)

-- A configuration that is read from the environment has an API key secret of at least 16 bytes, a
-- password of at least 8, a lifetime of tokens that is positive, and the key that its default
-- provider sends, if that one sends a key; in production the password is not "changeme", and there
-- are allowed origins, none of them the wildcard.
pub from_env-IsValid :
    (env : String → Option String) (fresh : String) (c : Config)
    → from_env env fresh ≡ inr c
    → IsValid c
unfolding from_env
from_env-IsValid env fresh c e =
    let (admin_password, e1) = given (env "DEKO_ADMIN_PASSWORD") _ _ c e in
    let (database_url, e2) = given (env "DEKO_DATABASE_URL") _ _ c e1 in
    let (api_key_secret, e3) = given (env "DEKO_API_KEY_SECRET") _ _ c e2 in
    let expiry = unwrap_or (env "DEKO_JWT_EXPIRY_SECS" >>= parse_i64) (pos 3600) in
    let (positive, e4) =
      positive_first (is_positive expiry)
        (read env fresh admin_password database_url api_key_secret expiry) c _ e3 in
    checked-IsValid (read env fresh admin_password database_url api_key_secret expiry) c
      (ap is_positive (expiry-read env fresh admin_password database_url api_key_secret expiry)
        ∙ positive)
      e4
