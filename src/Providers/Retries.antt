-- ===== src/Providers/Retries.antt =====
-- Which answer send_retry goes by.
use deko.Prelude.{
  ℕ, zero, suc, ◌≡◌, refl, String, ◌<>◌, true, false, ◌⊎◌, inl, inr, Option, Bool-cases,
}
use deko.Json.{Value}
use deko.Errors.{AppError, open_ai, Result, err, ◌>>=◌}
use deko.Platform.{Platform}
use deko.Providers.Send.{HttpAnswer, is_success, parsed, on_attempt, retry_loop, send_retry}

-- An answer that is no success, and the error that it leaves.
abbrev pub IsFailure : String ⊎ HttpAnswer → Type 0
IsFailure (inl e) = Unit
IsFailure (inr a) = is_success a ≡ false

abbrev pub error_of : String ⊎ HttpAnswer → AppError
error_of (inl e) = open_ai ("Request failed: " <> e)
error_of (inr a) = open_ai ("API returned " <> (a.status_text <> (": " <> a.body)))

module _ (P : Platform) (parse_error : String → String) {A : Type 0}
    (read : Value P.Number → Option A) (extract : A → Result String)
    (answers : ℕ → String ⊎ HttpAnswer) where
  -- The answer is a success, and its body is what the result is read from.
  abbrev pub Decides : String ⊎ HttpAnswer → Result String → Type 0
  Decides x r =
      (a : HttpAnswer) × (x ≡ inr a)
      × (is_success a ≡ true)
      × (r ≡ (parsed P parse_error "Failed to parse response: " read a.body >>= extract))

  attempted :
      (x : String ⊎ HttpAnswer) (next : AppError → Result String)
      → Decides x (on_attempt P parse_error read extract answers x next)
        ⊎ (IsFailure x × (on_attempt P parse_error read extract answers x next ≡ next (error_of x)))
  unfolding on_attempt
  attempted (inl e) next = inr (tt, refl)
  attempted (inr a) next = elim (Bool-cases (is_success a)) [
    | inl success ↦ inl (a, refl, success, rw success refl)
    | inr failure ↦ inr (failure, rw failure refl)
  ]

  -- The first success of the attempts that are left decides; without one the last error stands.
  abbrev pub FirstDecides : ℕ → ℕ → AppError → Result String → Type 0
  FirstDecides zero n last_err r = r ≡ err last_err
  FirstDecides (suc left) n last_err r =
      Decides (answers n) r
      ⊎ (IsFailure (answers n) × FirstDecides left (suc n) (error_of (answers n)) r)

  looped :
      (left n : ℕ) (last_err : AppError)
      → FirstDecides left n last_err (retry_loop P parse_error read extract answers left n last_err)
  unfolding retry_loop
  looped zero n last_err = refl
  looped (suc left) n last_err =
      elim (attempted (answers n) (retry_loop P parse_error read extract answers left (suc n))) [
        | inl decides ↦ inl decides
        | inr (failure, same) ↦ inr (failure, rw same (looped left (suc n) (error_of (answers n))))
      ]

-- send_retry asks at most three times. The result is read from the body of the first answer that is
-- a success; if there is none, it is the error of the third.
pub send_retry-FirstDecides :
    (P : Platform) (parse_error : String → String) {A : Type 0} (read : Value P.Number → Option A)
    (extract : A → Result String) (answers : ℕ → String ⊎ HttpAnswer)
    → let r = send_retry P parse_error read extract answers in
      Decides P parse_error read extract answers (answers 0) r
      ⊎ (IsFailure (answers 0)
          × (Decides P parse_error read extract answers (answers 1) r
              ⊎ (IsFailure (answers 1)
                  × (Decides P parse_error read extract answers (answers 2) r
                      ⊎ (IsFailure (answers 2) × (r ≡ err (error_of (answers 2))))))))
unfolding send_retry
send_retry-FirstDecides P parse_error read extract answers =
    looped P parse_error read extract answers 3 0 (open_ai "Exhausted all retries")
