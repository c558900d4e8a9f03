-- ===== src/Providers/Answer.antt =====
-- The answer types, as serde reads them from an object: none where it refuses the text. (A struct
-- that is written as a list of its members, which serde reads too, is left out.)
use deko.Prelude.{String, Option, none, some, List, [], ◌∷◌, ◌>>=◌, unwrap_or}
use deko.Json.{Value, null, text, obj, get, as_array, as_str}

abbrev pub first {ℓ} : {A : Type ℓ} → List A → Option A
first [] = none
first (x ∷ xs) = some x

module _ {N : Type 0} where
  abbrev option_of : Option (Value N) → Option (Option String)
  option_of none = some none
  option_of (some null) = some none
  option_of (some (text s)) = some (some s)
  option_of (some _) = none

  -- A member of type `Option<String>`: missing and null are none.
  unfoldable pub optional_member : String → Value N → Option (Option String)
  optional_member k (obj fs) = option_of (get k (obj fs))
  optional_member k _ = none

  unfoldable pub all_read {ℓ} :
      {A : Type ℓ} → (Value N → Option A) → List (Value N) → Option (List A)
  all_read read [] = some []
  all_read read (x ∷ xs) = do y ← read x; ys ← all_read read xs; some (y ∷ ys)

  -- A member whose type is a list.
  unfoldable pub list_member {ℓ} :
      {A : Type ℓ} → String → (Value N → Option A) → Value N → Option (List A)
  unfolding all_read
  list_member k read v = do items ← get k v; xs ← as_array items; all_read read xs

  -- The first content of a `ChatResponse`, an empty text if there is none.
  unfoldable pub chat_answer : Value N → Option String
  unfolding optional_member list_member
  chat_answer v = do
    choices ← list_member "choices" (λ c. get "message" c >>= optional_member "content") v
    some (unwrap_or (first choices >>= λ c. c) "")

  -- The first part of the first candidate of a `GeminiResponse`, none inside if it is missing.
  unfoldable pub gemini_answer : Value N → Option (Option String)
  unfolding optional_member list_member
  gemini_answer v = do
    candidates ←
        list_member "candidates"
          (λ c. get "content" c >>= list_member "parts" (optional_member "text")) v
    some (first candidates >>= λ parts. first parts >>= λ t. t)

  -- The first text of an `AnthropicResponse` or a `BedrockClaudeResponse`.
  unfoldable pub content_answer : Value N → Option String
  unfolding optional_member list_member
  content_answer v = do
    contents ← list_member "content" (optional_member "text") v
    some (unwrap_or (first contents >>= λ t. t) "")

  -- `OllamaResponse`
  unfoldable pub ollama_answer : Value N → Option String
  ollama_answer v = get "response" v >>= as_str
