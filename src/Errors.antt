-- ===== src/Errors.antt =====
-- error.rs: `AppError` and its answer.
use deko.Prelude.{◌≢◌, arith, ◌≡◌, ap, ℕ, String, ◌<>◌, Bool, if◌then◌else◌}

-- `Database` is without the error of the driver.
pub data AppError : Type 0 where
  database internal rate_limited : AppError
  not_found unauthorized forbidden bad_request : String → AppError
  open_ai gemini validation locked : String → AppError

pub data Result {ℓ} (A : Type ℓ) : Type ℓ where
  ok : A → Result A
  err : AppError → Result A

infixl 5 ◌>>=◌
abbrev pub ◌>>=◌ {ℓ κ} : {A : Type ℓ} {B : Type κ} → Result A → (A → Result B) → Result B
ok a >>= f = f a
err e >>= f = err e

pub ok-injective : {A : Type 0} {a b : A} → ok a ≡ ok b → a ≡ b
ok-injective {a = a} e = ap (λ r. elim r [ ok x ↦ x | err x ↦ a ]) e

pub err-ne-ok : {A : Type 0} {a : A} {x : AppError} → err x ≢ ok a
err-ne-ok e = ground arith

-- `Display`, by the `#[error(…)]` lines
unfoldable pub to_string : AppError → String
to_string database = "Database error"
to_string internal = "Internal server error"
to_string rate_limited = "Rate limited"
to_string (not_found m) = "Not found: " <> m
to_string (unauthorized m) = "Unauthorized: " <> m
to_string (forbidden m) = "Forbidden: " <> m
to_string (bad_request m) = "Bad request: " <> m
to_string (open_ai m) = "OpenAI API error: " <> m
to_string (gemini m) = "Gemini API error: " <> m
to_string (validation m) = "Validation error: " <> m
to_string (locked m) = "Action locked: " <> m

unfoldable pub sanitize_for_prod : Bool → String → String
sanitize_for_prod is_production msg = if is_production then "An internal error occurred" else msg

-- `into_response`: the status and the message of the body. The first argument is `is_production()`.
unfoldable pub into_response : Bool → AppError → ℕ × String
unfolding sanitize_for_prod
into_response prod database = (500, "Internal server error")
into_response prod (not_found msg) = (404, msg)
into_response prod (unauthorized msg) = (401, msg)
into_response prod (forbidden msg) = (403, msg)
into_response prod (bad_request msg) = (400, msg)
into_response prod internal = (500, sanitize_for_prod prod "Internal server error")
into_response prod (open_ai msg) = (500, sanitize_for_prod prod msg)
into_response prod (gemini msg) = (500, sanitize_for_prod prod msg)
into_response prod (validation msg) = (422, msg)
into_response prod rate_limited = (429, "Rate limited")
into_response prod (locked msg) = (423, msg)
