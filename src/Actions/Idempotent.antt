-- ===== src/Actions/Idempotent.antt =====
-- A submission that repeats an idempotency key.
use deko.Prelude.{
  ◌≡◌, refl, sym, ◌⊎◌, inl, inr, String, Bool, true, false, Option, none, some, List, [], ◌∷◌, ◌==◌,
  string_eq, if◌then◌else◌,
}
use mathlib.Core.Path.{subst}
use deko.Prelude.Text.{trim}
use deko.Models.{Action}
use deko.Errors.{AppError, Result, ok, err, bad_request, database}
use deko.Net.{Url}
use deko.Platform.{Platform}
use deko.World.{World, Agent, pure, raise, select, statement, ◌>>=◌}
use deko.Actions.Create.{
  CreateActionRequest, CreateReply, existing, reported_status, find_existing, is_too_large,
  checked_target, unless_existing, by_idempotency_key, if_permitted, create_action,
}

module _ (P : Platform) (url_error : String) (agent : Agent) (req : CreateActionRequest P.Number)
    (w : World P.Number) (a : Action) where
  -- No table has changed, and the answer is the stored action or an error.
  abbrev pub Repeats : Result CreateReply × World P.Number → Type 0
  Repeats (r, v) =
      (v.tables ≡ w.tables)
      × ((r ≡ ok (existing a.id (reported_status a.status))) ⊎ ((e : AppError) × (r ≡ err e)))

  module _ (key : String) (found : find_existing agent.id key w.tables ≡ some a) where
    repeated_with :
        (fs : List Bool)
        → Repeats (by_idempotency_key P url_error agent req (some key) (record w { faults = fs }))
    unfolding by_idempotency_key unless_existing select statement pure ◌>>=◌
    repeated_with (true ∷ fs) = (refl, inr (database, refl))
    repeated_with [] = rw found (refl, inl refl)
    repeated_with (false ∷ fs) = rw found (refl, inl refl)

    repeated_by :
        (k : Option String) → some key ≡ k → Repeats (by_idempotency_key P url_error agent req k w)
    repeated_by k same =
        subst (λ k. Repeats (by_idempotency_key P url_error agent req k w)) same
          (repeated_with w.faults)

    module _ (same : req.idempotency_key ≡ some key) where
      repeated :
          (checked : Option (String ⊎ Url)) → Repeats (if_permitted P url_error agent req checked w)
      unfolding if_permitted raise
      repeated none = repeated_by req.idempotency_key (sym same)
      repeated (some (inl e)) = (refl, inr (bad_request e, refl))
      repeated (some (inr url)) = repeated_by req.idempotency_key (sym same)

      submitted :
          (blank large : Bool) (e f : AppError)
          → Repeats (
              (if blank
                  then raise e
                  else if large
                  then raise f
                  else if_permitted P url_error agent req
                      (checked_target P url_error req.target_url))
                w)
      unfolding raise
      submitted true large e f = (refl, inr (e, refl))
      submitted false true e f = (refl, inr (f, refl))
      submitted false false e f = repeated _

-- Whatever statements fail, a submission with the idempotency key of an action that the agent has
-- submitted before changes no table, and is answered with that action or with an error.
pub create_action-Repeats :
    (P : Platform) (url_error : String) (agent : Agent) (req : CreateActionRequest P.Number)
    (w : World P.Number) (a : Action) (key : String)
    → req.idempotency_key ≡ some key
    → find_existing agent.id key w.tables ≡ some a
    → Repeats P url_error agent req w a (create_action P url_error agent req w)
unfolding create_action
create_action-Repeats P url_error agent req w a key same found =
    submitted P url_error agent req w a key found same (trim req.intent == "")
      (is_too_large req.screenshot_base64) _ _
