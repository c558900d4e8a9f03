-- ===== src/Actions/Batch.antt =====
-- batch_create_actions. The statement has twelve places and is given eleven values, so SQLite stores
-- NULL for the last one, execute_at.
use deko.Prelude.{
  ltb, String, true, Option, none, some, List, [], ◌∷◌, ◌++◌, length, unwrap_or, if◌then◌else◌,
}
use deko.Prelude.Int.{pos}
use deko.Json.{Value, object, text, bool}
use deko.Models.{Action, pending}
use deko.Errors.{bad_request}
use deko.Platform.{Platform}
use deko.Audit.Record.{record_entry}
use deko.World.{Agent, M, pure, raise, execute, attempt, gets, draw, ◌>>=◌}
use deko.Actions.Create.{CreateActionRequest, sanitize_input}

-- The members id and intent of an answer; the status is always pending.
pub record Created : Type 0 where
  pub id : String
  pub intent : String

module _ (P : Platform) (agent : Agent) where
  open P use {Number, print, uuid, sqlite_time}

  abbrev printed : Option (Value Number) → Option String
  printed none = none
  printed (some v) = some (print v)

  abbrev pub batch_action : CreateActionRequest Number → String → String → Action
  batch_action req id now = record {
    id = id;
    agent_id = agent.id;
    intent = sanitize_input req.intent 500;
    payload = req.payload;
    screenshot_base64 = req.screenshot_base64;
    metadata = printed req.metadata;
    status = pending;
    target_url = req.target_url;
    target_method = req.target_method;
    created_at = now;
    updated_at = now;
    idempotency_key = req.idempotency_key;
    priority = unwrap_or req.priority (pos 5);
    execute_at = none;
  }

  -- One request; an error of the entry is dropped.
  unfoldable pub batch_one : CreateActionRequest Number → M Number Created
  unfolding sanitize_input
  batch_one req = do
    n ← draw
    now ← gets (λ w. sqlite_time (pos w.clock))
    _ ← execute (λ t. record t { actions = t.actions ++ (batch_action req (uuid n) now ∷ []) })
    _ ← attempt (
        record_entry P (some (uuid n)) "action_created" (
          object (
            ("agent_id", text agent.id)
            ∷ ("intent", text (sanitize_input req.intent 500))
            ∷ ("batch", bool true)
            ∷ [])))
    pure (record { id = uuid n; intent = sanitize_input req.intent 500 })

  unfoldable pub batch_loop :
      List (CreateActionRequest Number) → List Created → M Number (List Created)
  unfolding batch_one
  batch_loop [] results = pure results
  batch_loop (req ∷ reqs) results = do
    created ← batch_one req
    batch_loop reqs (results ++ (created ∷ []))

  unfoldable pub batch_create_actions : List (CreateActionRequest Number) → M Number (List Created)
  unfolding batch_loop
  batch_create_actions reqs =
      if ltb 50 (length reqs)
      then raise (bad_request "Maximum 50 actions per batch")
      else batch_loop reqs []
