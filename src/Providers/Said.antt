-- ===== src/Providers/Said.antt =====
-- What the HTTP helpers return was said by an answer of the server.
use mathlib.Core.Option.{none-ne-some}
use deko.Prelude.{
  ℕ, zero, suc, ◌+◌, ◌<◌, ◌≡◌, refl, ap, ◌∙◌, String, true, ◌⊎◌, inl, inr, Option, none, some,
  arith, Bool-cases, ◌>>=◌ as ◌>>=?◌,
}
use deko.Json.{Value}
use deko.Errors.{AppError, open_ai, Result, ok, err, ok-injective, err-ne-ok, ◌>>=◌}
use deko.Platform.{Platform}
use deko.Providers.Send.{
  HttpAnswer, is_success, checked_body, parsed, send_raw, send_chat_request, send_anthropic,
  send_raw_custom, on_attempt, retry_loop, send_retry, or_parse_error,
}
use deko.Providers.Call.{gemini_text_of}
use deko.Providers.Answer.{chat_answer, content_answer, gemini_answer}

pub bind_some :
    {A B : Type 0} (o : Option A) (f : A → Option B) (b : B)
    → (o >>=? f) ≡ some b
    → (a : A) × (o ≡ some a) × (f a ≡ some b)
bind_some none f b e = absurd (none-ne-some b e)
bind_some (some a) f b e = (a, refl, e)

pub bind_ok :
    {A B : Type 0} (r : Result A) (f : A → Result B) (b : B)
    → (r >>= f) ≡ ok b
    → (a : A) × (r ≡ ok a) × (f a ≡ ok b)
bind_ok (err x) f b e = absurd (err-ne-ok e)
bind_ok (ok a) f b e = (a, refl, e)

-- The body of a successful answer.
checked_said :
    (failed refused : String) (answer : String ⊎ HttpAnswer) (body : String)
    → checked_body failed refused answer ≡ ok body
    → (a : HttpAnswer) × (answer ≡ inr a) × (is_success a ≡ true) × (a.body ≡ body)
unfolding checked_body
checked_said failed refused (inl m) body e = absurd (err-ne-ok e)
checked_said failed refused (inr a) body e = elim (Bool-cases (is_success a)) [
  | inl well ↦ (a, refl, well, ok-injective (rw well at e))
  | inr bad ↦ absurd (err-ne-ok (rw bad at e))
]

module _ (P : Platform) where
  -- A successful answer whose JSON holds `x` at the place that `read` reads.
  abbrev pub SaysJson :
      {A : Type 0} → (Value P.Number → Option A) → A → String ⊎ HttpAnswer → Type 0
  SaysJson read x answer =
      (a : HttpAnswer) × (answer ≡ inr a)
      × (is_success a ≡ true)
      × ((json : Value P.Number) × (P.from_str a.body ≡ some json) × (read json ≡ some x))

  module _ (parse_error : String → String) where
    or_error_said :
        {A : Type 0} (message : String) (o : Option A) (x : A)
        → or_parse_error P parse_error message o ≡ ok x
        → o ≡ some x
    or_error_said message none x e = absurd (err-ne-ok e)
    or_error_said message (some y) x e = ap (λ z. some z) (ok-injective e)

    pub parsed_said :
        {A : Type 0} (message : String) (read : Value P.Number → Option A) (body : String) (x : A)
        → parsed P parse_error message read body ≡ ok x
        → (json : Value P.Number) × (P.from_str body ≡ some json) × (read json ≡ some x)
    unfolding parsed
    parsed_said message read body x e =
        bind_some (P.from_str body) read x (or_error_said _ (P.from_str body >>=? read) x e)

    body_said :
        {A : Type 0} (message : String) (read : Value P.Number → Option A) (a : HttpAnswer)
        (body : String) (x : A)
        → a.body ≡ body
        → parsed P parse_error message read body ≡ ok x
        → (json : Value P.Number) × (P.from_str a.body ≡ some json) × (read json ≡ some x)
    body_said message read a body x same e =
        let (json, from, reads) = parsed_said message read body x e in
        (json, ap P.from_str same ∙ from, reads)

    checked_parsed :
        {A : Type 0} (failed refused message : String) (read : Value P.Number → Option A)
        (answer : String ⊎ HttpAnswer) (x : A)
        → (checked_body failed refused answer >>= parsed P parse_error message read) ≡ ok x
        → SaysJson read x answer
    checked_parsed failed refused message read answer x e =
        let (body, checked, read_it) = bind_ok (checked_body failed refused answer) _ x e in
        let (a, same, well, is) = checked_said failed refused answer body checked in
        (a, same, well, body_said message read a body x is read_it)

    pub said_raw :
        (read : Value P.Number → Option String) (answer : String ⊎ HttpAnswer) (content : String)
        → send_raw P parse_error read answer ≡ ok content
        → SaysJson read content answer
    unfolding send_raw
    said_raw read answer content e = checked_parsed _ _ _ read answer content e

    pub said_chat :
        (answer : String ⊎ HttpAnswer) (content : String)
        → send_chat_request P parse_error answer ≡ ok content
        → SaysJson chat_answer content answer
    unfolding send_chat_request
    said_chat answer content e = said_raw chat_answer answer content e

    pub said_anthropic :
        (answer : String ⊎ HttpAnswer) (content : String)
        → send_anthropic P parse_error answer ≡ ok content
        → SaysJson content_answer content answer
    unfolding send_anthropic
    said_anthropic answer content e = checked_parsed _ _ _ content_answer answer content e

    pub said_custom :
        (answer : String ⊎ HttpAnswer) (content : String)
        → send_raw_custom P parse_error answer ≡ ok content
        → (a : HttpAnswer) × (answer ≡ inr a) × (is_success a ≡ true) × (a.body ≡ content)
    unfolding send_raw_custom
    said_custom answer content e = checked_said _ _ answer content e

    gemini_said :
        (o : Option String) (content : String) → gemini_text_of o ≡ ok content → o ≡ some content
    gemini_said none content e = absurd (err-ne-ok e)
    gemini_said (some t) content e = ap (λ z. some z) (ok-injective e)

    said_attempt :
        (answers : ℕ → String ⊎ HttpAnswer) (left n : ℕ) (content : String)
        (answer : String ⊎ HttpAnswer)
        → answers n ≡ answer
        → ((last : AppError)
            → retry_loop P parse_error gemini_answer gemini_text_of answers left (suc n) last
              ≡ ok content
            → (k : ℕ) × (k < suc n + left) × SaysJson gemini_answer (some content) (answers k))
        → on_attempt P parse_error gemini_answer gemini_text_of answers answer
            (retry_loop P parse_error gemini_answer gemini_text_of answers left (suc n))
          ≡ ok content
        → (k : ℕ) × (k < n + suc left) × SaysJson gemini_answer (some content) (answers k)
    unfolding on_attempt
    said_attempt answers left n content (inl m) same rest e =
        let (k, lt, says) = rest _ e in (k, omega (arith, lt), says)
    said_attempt answers left n content (inr a) same rest e = elim (Bool-cases (is_success a)) [
      | inl well ↦
          let (o, got, text) =
            bind_ok (parsed P parse_error "Failed to parse response: " gemini_answer a.body)
              gemini_text_of content (rw well at e) in
          let (json, from, reads) = parsed_said _ gemini_answer a.body o got in
          (
            n,
            omega arith,
            (a, same, well, (json, from, reads ∙ ap (λ z. some z) (gemini_said o content text))),
          )
      | inr bad ↦ let (k, lt, says) = rest _ (rw bad at e) in (k, omega (arith, lt), says)
    ]

    -- One of the attempts that are left said it.
    said_loop :
        (answers : ℕ → String ⊎ HttpAnswer) (left n : ℕ) (last : AppError) (content : String)
        → retry_loop P parse_error gemini_answer gemini_text_of answers left n last ≡ ok content
        → (k : ℕ) × (k < n + left) × SaysJson gemini_answer (some content) (answers k)
    unfolding retry_loop
    said_loop answers zero n last content e = absurd (err-ne-ok e)
    said_loop answers (suc left) n last content e =
        said_attempt answers left n content (answers n) refl
          (λ l. said_loop answers left (suc n) l content) e

    pub said_retry :
        (answers : ℕ → String ⊎ HttpAnswer) (content : String)
        → send_retry P parse_error gemini_answer gemini_text_of answers ≡ ok content
        → (n : ℕ) × (n < 3) × SaysJson gemini_answer (some content) (answers n)
    unfolding send_retry
    said_retry answers content e = said_loop answers 3 0 (open_ai "Exhausted all retries") content e
