-- ===== src/Providers/Send.antt =====
-- The HTTP helpers: what is made of the answer of the HTTP client, which is an error text or the
-- status with its text and the body (empty if it cannot be read).
use deko.Prelude.{
  ℕ, zero, suc, ltb, leb, String, ◌<>◌, Bool, ◌&&◌, ◌⊎◌, inl, inr, Option, none, some, List,
  ◌>>=◌ as ◌>>=?◌, if◌then◌else◌,
}
use deko.Json.{Value}
use deko.Errors.{AppError, open_ai, Result, ok, err, ◌>>=◌}
use deko.Platform.{Platform}
use deko.Providers.Answer.{chat_answer, content_answer}

pub record HttpRequest (N : Type 0) : Type 0 where
  pub url : String
  pub headers : List (String × String)
  pub body : Value N

pub record HttpAnswer : Type 0 where
  pub status : ℕ
  pub status_text : String
  pub body : String

abbrev pub is_success : HttpAnswer → Bool
is_success a = leb 200 a.status && ltb a.status 300

-- The body of a success; the two texts stand in front of the two errors.
unfoldable pub checked_body : String → String → String ⊎ HttpAnswer → Result String
checked_body failed refused (inl e) = err (open_ai (failed <> e))
checked_body failed refused (inr a) =
    if is_success a
    then ok a.body
    else err (open_ai (refused <> (a.status_text <> (": " <> a.body))))

module _ (P : Platform) (parse_error : String → String) where
  open P use {Number, from_str}

  abbrev pub or_parse_error : {A : Type 0} → String → Option A → Result A
  or_parse_error message none = err (open_ai message)
  or_parse_error message (some a) = ok a

  unfoldable pub parsed : {A : Type 0} → String → (Value Number → Option A) → String → Result A
  parsed message read body = or_parse_error (message <> parse_error body) (from_str body >>=? read)

  unfoldable pub send_raw : (Value Number → Option String) → String ⊎ HttpAnswer → Result String
  unfolding checked_body parsed
  send_raw read answer =
      checked_body "Request failed: " "API error " answer
      >>= parsed "Failed to parse response: " read

  unfoldable pub send_chat_request : String ⊎ HttpAnswer → Result String
  unfolding send_raw chat_answer
  send_chat_request answer = send_raw chat_answer answer

  unfoldable pub send_anthropic : String ⊎ HttpAnswer → Result String
  unfolding checked_body parsed content_answer
  send_anthropic answer =
      checked_body "Anthropic request failed: " "Anthropic API error " answer
      >>= parsed "Failed to parse Anthropic response: " content_answer

  unfoldable pub send_raw_custom : String ⊎ HttpAnswer → Result String
  unfolding checked_body
  send_raw_custom answer =
      checked_body "Custom provider request failed: " "Custom provider error " answer

  module _ {A : Type 0} (read : Value Number → Option A) (extract : A → Result String)
      (answers : ℕ → String ⊎ HttpAnswer) where
    -- One attempt; `next` goes on with the error of this one.
    unfoldable pub on_attempt : String ⊎ HttpAnswer → (AppError → Result String) → Result String
    unfolding parsed
    on_attempt (inl e) next = next (open_ai ("Request failed: " <> e))
    on_attempt (inr a) next =
        if is_success a
        then parsed "Failed to parse response: " read a.body >>= extract
        else next (open_ai ("API returned " <> (a.status_text <> (": " <> a.body))))

    -- With the number of attempts that are left, that of the next one, and the last error.
    unfoldable pub retry_loop : ℕ → ℕ → AppError → Result String
    unfolding on_attempt
    retry_loop zero n last_err = err last_err
    retry_loop (suc left) n last_err = on_attempt (answers n) (retry_loop left (suc n))

    unfoldable pub send_retry : Result String
    unfolding retry_loop
    send_retry = retry_loop 3 0 (open_ai "Exhausted all retries")
