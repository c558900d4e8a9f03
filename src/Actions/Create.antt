-- ===== src/Actions/Create.antt =====
-- create_action without `wait`, which only polls for the verdict. The actions table fills in its
-- own defaults for the two timestamps.
use Prim.Native.String.{len, slice}
use deko.Prelude.{
  ℕ, ◌*◌, ltb, String, ◌<>◌, Bool, false, ◌&&◌, ◌⊎◌, inl, Option, none, some, [], ◌∷◌, ◌++◌, find,
  unwrap_or, ◌==◌, string_eq, if◌then◌else◌,
}
use deko.Prelude.Int.{ℤ, pos}
use deko.Prelude.Text.{trim, replace, ltb_text, show_nat}
use deko.Json.{Value, Fields, end, field, obj, object, text}
use deko.Models.{Action, ActionStatus, pending, forward_failed}
use deko.Errors.{bad_request}
use deko.Net.{Url}
use deko.Platform.{Platform}
use deko.Audit.Record.{record_entry}
use deko.World.{Tables, Agent, M, pure, raise, select, execute, gets, draw, ◌>>=◌}
use deko.Egress

-- The cut panics in the source off a character boundary, and is total here.
unfoldable pub sanitize_input : String → ℕ → String
unfolding replace
sanitize_input input max_len =
    let truncated = if ltb max_len (len input) then slice input 0 max_len else input in
    replace "&" "&amp;" (
      replace "'" "&#x27;"
        (replace "\"" "&quot;" (replace ">" "&gt;" (replace "<" "&lt;" truncated))))

pub record CreateActionRequest (N : Type 0) : Type 0 where
  pub intent : String
  pub payload : Option String
  pub screenshot_base64 : Option String
  pub metadata : Option (Value N)
  pub target_url : Option String
  pub target_method : Option String
  pub idempotency_key : Option String
  pub execute_at : Option String
  pub priority : Option ℤ
  pub response_transform : Option (Value N)

-- The answer 200 with the action that has the key already, and the answer 201.
pub data CreateReply : Type 0 where
  existing : String → ActionStatus → CreateReply
  created : String → CreateReply

-- `Map::insert`; the members are in the order of their names.
abbrev pub insert_field : {N : Type 0} → String → Value N → Fields N → Fields N
insert_field k v end = field k v end
insert_field k v (field j u fs) =
    if j == k
    then field k v fs
    else if ltb_text k j
    then field k v (field j u fs)
    else field j u (insert_field k v fs)

abbrev pub with_transform : {N : Type 0} → Option (Value N) → Value N → Value N
with_transform (some transform) (obj fs) = obj (insert_field "response_transform" transform fs)
with_transform _ metadata = metadata

abbrev pub has_key : String → String → Action → Bool
has_key agent_id key a =
    (a.agent_id == agent_id) && elim a.idempotency_key [ none ↦ false | some k ↦ k == key ]

-- `WHERE agent_id = ? AND idempotency_key = ?`, which matches nothing without a key
abbrev pub find_existing : {N : Type 0} → String → String → Tables N → Option Action
find_existing agent_id key t = find (has_key agent_id key) t.actions

-- The status is read by a table that lacks forward_failed.
abbrev pub reported_status : ActionStatus → ActionStatus
reported_status forward_failed = pending
reported_status s = s

abbrev pub max_screenshot : ℕ
max_screenshot = 10 * 1024 * 1024

abbrev pub is_too_large : Option String → Bool
is_too_large none = false
is_too_large (some screenshot) = ltb max_screenshot (len screenshot)

module _ (P : Platform) (url_error : String) where
  open P use {Number, print, uuid, sqlite_time}

  -- The check of the target, if there is one.
  abbrev pub checked_target : Option String → Option (String ⊎ Url)
  checked_target none = none
  checked_target (some url) = some (Egress.parse P url_error url)

  module _ (agent : Agent) (req : CreateActionRequest Number) where
    abbrev pub new_action : String → String → Action
    new_action id now = record {
      id = id;
      agent_id = agent.id;
      intent = sanitize_input req.intent 500;
      payload = req.payload;
      screenshot_base64 = req.screenshot_base64;
      metadata =
          some (print (with_transform req.response_transform (unwrap_or req.metadata (object []))));
      status = pending;
      target_url = req.target_url;
      target_method = req.target_method;
      created_at = now;
      updated_at = now;
      idempotency_key = req.idempotency_key;
      priority = unwrap_or req.priority (pos 5);
      execute_at = req.execute_at;
    }

    unfoldable pub insert_action : M Number CreateReply
    unfolding sanitize_input
    insert_action = do
      n ← draw
      now ← gets (λ w. sqlite_time (pos w.clock))
      _ ← execute (λ t. record t { actions = t.actions ++ (new_action (uuid n) now ∷ []) })
      _ ← record_entry P (some (uuid n)) "action_created" (
          object (
            ("agent_id", text agent.id)
            ∷ ("agent_name", text agent.name)
            ∷ ("intent", text (sanitize_input req.intent 500))
            ∷ []))
      pure (created (uuid n))

    unfoldable pub unless_existing : Option Action → M Number CreateReply
    unfolding insert_action
    unless_existing (some a) = pure (existing a.id (reported_status a.status))
    unless_existing none = insert_action

    unfoldable pub by_idempotency_key : Option String → M Number CreateReply
    unfolding unless_existing
    by_idempotency_key none = insert_action
    by_idempotency_key (some key) = select (find_existing agent.id key) >>= unless_existing

    unfoldable pub if_permitted : Option (String ⊎ Url) → M Number CreateReply
    unfolding by_idempotency_key
    if_permitted (some (inl e)) = raise (bad_request e)
    if_permitted _ = by_idempotency_key req.idempotency_key

    unfoldable pub create_action : M Number CreateReply
    unfolding if_permitted trim show_nat
    create_action =
        if trim req.intent == ""
        then raise (bad_request "intent is required")
        else if is_too_large req.screenshot_base64
        then raise (
            bad_request (
              "Screenshot too large: "
              <> (show_nat (len (unwrap_or req.screenshot_base64 ""))
                  <> " bytes exceeds 10 MB limit")))
        else if_permitted (checked_target req.target_url)
