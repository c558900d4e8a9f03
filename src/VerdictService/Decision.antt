-- ===== src/VerdictService/Decision.antt =====
-- What the model decides.
use deko.Prelude.{ℕ, suc, ◌≡◌, refl, ◌⊎◌, inl, inr, String, Option, none, some, List, [], ◌∷◌}
use deko.Models.{Action, VerdictDecision, denied}
use deko.Errors.{AppError, Result, ok, err, to_string}
use deko.Llm.{Provider, VerdictResult}
use deko.Platform.{Platform}
use deko.World.{World, M, ◌>>=◌, pure, update, attempt}
use deko.VerdictService.{Service}
use deko.VerdictService.Analysis.{
  clamped, exhausted, on_answer, answer_of, ask_providers, try_llm_analysis,
}

module _ (P : Platform) (svc : Service P.F64) (action : Action) (context : String) where
  -- The first provider that answers decides `d`; those before it fail.
  pub data AnsweredBy (d : VerdictDecision) : List (Provider P.F64) → Type 0 where
    first :
        {p : Provider P.F64} {ps : List (Provider P.F64)} (v : VerdictResult P.F64)
        → answer_of P svc action context p ≡ ok v
        → v.decision ≡ d
        → AnsweredBy d (p ∷ ps)
    later :
        {p : Provider P.F64} {ps : List (Provider P.F64)} (e : AppError)
        → answer_of P svc action context p ≡ err e
        → AnsweredBy d ps
        → AnsweredBy d (p ∷ ps)

  pub data AllFailed : List (Provider P.F64) → Type 0 where
    done : AllFailed []
    failed :
        {p : Provider P.F64} {ps : List (Provider P.F64)} (e : AppError)
        → answer_of P svc action context p ≡ err e
        → AllFailed ps
        → AllFailed (p ∷ ps)

  -- What the verdict `v` rests on.
  abbrev pub RestsOn : List (Provider P.F64) → VerdictResult P.F64 → Type 0
  RestsOn ps v = AnsweredBy v.decision ps ⊎ (AllFailed ps × (v.decision ≡ denied))

  abbrev pub Answers :
      M P.Number (VerdictResult P.F64) → List (Provider P.F64) → World P.Number → Type 0
  Answers m ps w = (v : VerdictResult P.F64) × ((m w).0 ≡ ok v) × RestsOn ps v

  Answers-on_answer :
      (idx : ℕ) (p : Provider P.F64) (ps : List (Provider P.F64))
      (next : Option String → M P.Number (VerdictResult P.F64)) (w : World P.Number)
      (answer : Result (VerdictResult P.F64))
      → answer_of P svc action context p ≡ answer
      → ((last : Option String) (u : World P.Number) → Answers (next last) ps u)
      → Answers (on_answer P svc action context idx p ps next answer) (p ∷ ps) w
  unfolding on_answer ◌>>=◌ update pure attempt clamped
  Answers-on_answer idx p ps next w (ok v) e k =
      (clamped P svc action context v, refl, inl (first v e refl))
  Answers-on_answer idx p ps next w (err e) same k =
      let (v, r, h) = k (some (to_string e)) _ in
      (v, r, elim h [ inl a ↦ inl (later e same a) | inr (f, d) ↦ inr (failed e same f, d) ])

  Answers-ask_providers :
      (idx : ℕ) (ps : List (Provider P.F64)) (last : Option String) (w : World P.Number)
      → Answers (ask_providers P svc action context idx ps last) ps w
  unfolding ask_providers ◌>>=◌ update pure exhausted
  Answers-ask_providers idx [] last w =
      (exhausted P svc action context last, refl, inr (done, refl))
  Answers-ask_providers idx (p ∷ ps) last w =
      Answers-on_answer idx p ps (ask_providers P svc action context (suc idx) ps) w
        (answer_of P svc action context p) refl (Answers-ask_providers (suc idx) ps)

-- Whatever statements fail, the analysis returns a verdict. Its decision is that of the first
-- provider that answers, all those before it having failed; and if all fail, it is a denial.
pub try_llm_analysis-first :
    (P : Platform) (svc : Service P.F64) (action : Action) (context : String) (w : World P.Number)
    → (v : VerdictResult P.F64) × ((try_llm_analysis P svc action context w).0 ≡ ok v)
      × RestsOn P svc action context svc.providers v
unfolding try_llm_analysis ◌>>=◌ update attempt
try_llm_analysis-first P svc action context w =
    Answers-ask_providers P svc action context 0 svc.providers none _
