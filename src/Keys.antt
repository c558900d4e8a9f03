-- ===== src/Keys.antt =====
-- routes/auth.rs: the agents and their keys. `admin` is the identity of the administrator, empty for
-- none; `secret` is the variable DEKO_API_KEY_SECRET. New keys are drawn uuids.
pub mod Granted
pub mod Revoked
use deko.Prelude.{
  ℕ, String, ◌<>◌, Bool, true, false, ◌&&◌, Option, none, some, List, [], ◌∷◌, ◌++◌, map, any, keep,
  unwrap_or, order_by, is_some, ◌==◌, string_eq, if◌then◌else◌,
}
use deko.Prelude.Int.{pos}
use deko.Prelude.Text.{trim, leb_text}
use deko.Json.{Value, object, text, optional}
use deko.Errors.{forbidden, bad_request, not_found, internal, database}
use deko.Platform.{Platform}
use deko.Audit.Record.{record_entry}
use deko.Auth.{hash_api_key, active_agent}
use deko.World.{
  World, Tables, Agent, ApiKey, M, pure, raise, select, execute, statement, attempt, gets, draw,
  require, ◌>>=◌,
}

-- CreateAgentResponse of models/agent.rs
pub record CreateAgentResponse : Type 0 where
  pub id : String
  pub name : String
  pub api_key : String
  pub created_at : ℕ

pub record AgentSummary : Type 0 where
  pub id : String
  pub name : String
  pub active : Bool
  pub created_at : String

pub record CreateApiKeyResponse : Type 0 where
  pub api_key : String
  pub label : String

pub record ApiKeySummary : Type 0 where
  pub id : String
  pub label : String
  pub active : Bool
  pub created_at : String

-- `if _admin.is_empty() { return Err(…) }`
abbrev as_admin : {N A : Type 0} → String → M N A → M N A
as_admin admin m = if admin == "" then raise (forbidden "Admin access required") else m

abbrev pub summary_of : Agent → AgentSummary
summary_of a = record { id = a.id; name = a.name; active = a.active; created_at = a.created_at }

abbrev pub key_summary_of : ApiKey → ApiKeySummary
key_summary_of k = record {
  id = k.id;
  label = k.label;
  active = k.active;
  created_at = k.created_at;
}

unfoldable pub deactivate : String → Option String → String → List Agent → List Agent
deactivate id reason now agents =
    map
      (λ a.
        if a.id == id
        then record a { active = false; deactivated_reason = reason; deactivated_at = some now }
        else a)
      agents

module _ (P : Platform) where
  open P use {Number, uuid, sqlite_time}

  abbrev pub new_agent : String → String → String → String → Agent
  new_agent id name hashed now = record {
    id = id;
    name = name;
    api_key_hash = hashed;
    active = true;
    created_at = now;
    deactivated_reason = none;
    deactivated_at = none;
    api_key_expires_at = none;
    webhook_url = none;
  }

  unfoldable pub insert_agent : String → String → String → String → M Number CreateAgentResponse
  unfolding hash_api_key
  insert_agent id name api_key secret = do
    now ← gets (λ w. w.clock)
    _ ← execute (λ t. record t {
      agents =
          t.agents
          ++ (new_agent id name (hash_api_key P api_key secret) (sqlite_time (pos now)) ∷ []);
    })
    _ ←
        record_entry P none "agent_registered"
          (object (("agent_id", text id) ∷ ("agent_name", text name) ∷ []))
    pure (record { id = id; name = name; api_key = api_key; created_at = now })

  unfoldable pub register_agent : Option String → String → String → M Number CreateAgentResponse
  unfolding insert_agent trim
  register_agent secret admin name = as_admin admin (
      if trim name == ""
      then raise (bad_request "name is required")
      else (draw >>= (λ id.
          draw
          >>= (λ api_key. require internal secret >>= insert_agent (uuid id) name (uuid api_key)))))

  -- The entry of a revocation; an error is dropped. `found` says if a row was updated.
  unfoldable pub record_revoked : String → Option String → Bool → M Number String
  record_revoked agent_id reason false = raise (not_found "Agent not found")
  record_revoked agent_id reason true = do
    _ ←
        attempt (
          record_entry P (some agent_id) "agent_revoked"
            (object (("reason", optional reason) ∷ [])))
    pure agent_id

  unfoldable pub revoke_agent : String → String → Option String → M Number String
  unfolding deactivate record_revoked
  revoke_agent admin agent_id reason = as_admin admin (
      gets (λ w. sqlite_time (pos w.clock)) >>= (λ now.
        statement (λ t. (
          any (λ a. a.id == agent_id) t.agents,
          record t { agents = deactivate agent_id reason now t.agents },
        ))
        >>= record_revoked agent_id reason))

  unfoldable pub list_agents : String → M Number (List AgentSummary)
  unfolding order_by
  list_agents admin =
      as_admin admin (
        select
          (λ t. map summary_of (order_by (λ a b. leb_text b.created_at a.created_at) t.agents)))

  abbrev pub new_key : String → String → String → String → String → ApiKey
  new_key id agent_id hashed label now = record {
    id = id;
    agent_id = agent_id;
    key_hash = hashed;
    label = label;
    active = true;
    created_at = now;
    expires_at = none;
  }

  unfoldable pub insert_key : Option String → String → Option String → M Number CreateApiKeyResponse
  unfolding hash_api_key
  insert_key secret agent_id label = do
    drawn ← draw
    now ← gets (λ w. sqlite_time (pos w.clock))
    let raw_key = agent_id <> ("-" <> uuid drawn)
    let key_hash = hash_api_key P raw_key (unwrap_or secret "")
    id ← draw
    _ ← execute (λ t. record t {
      api_keys =
          t.api_keys
          ++ (new_key (uuid id) agent_id key_hash (unwrap_or label "additional-key") now ∷ []);
    })
    pure (record { api_key = raw_key; label = unwrap_or label "additional-key" })

  unfoldable pub create_api_key :
      Option String → String → String → Option String → M Number CreateApiKeyResponse
  unfolding insert_key
  create_api_key secret admin agent_id label = as_admin admin (
      select (λ t. is_some (active_agent agent_id t)) >>= (λ agent_exists.
        if agent_exists
        then insert_key secret agent_id label
        else raise (not_found "Active agent not found")))

  unfoldable pub list_api_keys : String → String → M Number (List ApiKeySummary)
  unfolding order_by
  list_api_keys admin agent_id = as_admin admin (
      select (λ t. map key_summary_of (
        order_by (λ a b. leb_text b.created_at a.created_at)
          (keep (λ k. k.agent_id == agent_id) t.api_keys))))

  -- The statement sets `updated_at`, a column that no migration gives to the agents, so it is
  -- refused, and what follows it is not reached.
  unfoldable pub rotate_agent_key : {A : Type 0} → Option String → String → M Number A
  rotate_agent_key secret admin =
      as_admin admin (draw >>= (λ drawn. require internal secret >>= (λ s. raise database)))
