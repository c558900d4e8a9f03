-- ===== src/Auth.antt =====
-- middleware/auth.rs and routes/token.rs: how a request is authenticated. A request is given by its
-- two credentials; jsonwebtoken's answers are arguments. `Denied` is the answer 401 with its
-- message, `Failed` the answer 500.
pub mod Accepted
pub mod Exchange
pub mod Token
pub mod Issued
use deko.Prelude.{
  ℕ, String, ◌<>◌, Bool, true, false, ◌&&◌, Option, none, some, List, [], ◌∷◌, find, ◌==◌,
  string_eq, if◌then◌else◌,
}
use deko.Prelude.Int.{ℤ, pos, ltb_ℤ}
use deko.Json.{Value, object, text}
use deko.Errors.{Result, ok, err, AppError, unauthorized}
use deko.Platform.{Platform}
use deko.Audit.Record.{record_entry}
use deko.World.{
  World, Tables, Agent, ApiKey, M, pure, select, attempt, gets, require, for_some, ◌>>=◌,
}

pub data Outcome : Type 0 where
  authenticated : Agent → Outcome
  rejected : String → Outcome
  failed : Outcome

-- `SELECT … WHERE key_hash = ? AND active = 1`, and the two look-ups of agents
abbrev pub key_of : {N : Type 0} → String → Tables N → Option ApiKey
key_of hashed t = find (λ k. (k.key_hash == hashed) && k.active) t.api_keys

abbrev pub active_agent : {N : Type 0} → String → Tables N → Option Agent
active_agent id t = find (λ a. (a.id == id) && a.active) t.agents

abbrev pub legacy_agent : {N : Type 0} → String → Tables N → Option Agent
legacy_agent hashed t = find (λ a. (a.api_key_hash == hashed) && a.active) t.agents

module _ (P : Platform) where
  open P use {Number, sha256, parse_rfc3339}

  unfoldable pub hash_api_key : String → String → String
  hash_api_key key secret = sha256 (key <> (":" <> secret))

  -- A text that is no rfc3339 time does not expire.
  unfoldable pub expired_at : ℕ → Option String → Bool
  expired_at now none = false
  expired_at now (some t) = elim (parse_rfc3339 t) [ none ↦ false | some e ↦ ltb_ℤ e (pos now) ]

  -- A time that was decoded.
  abbrev pub is_past : ℕ → Option ℤ → Bool
  is_past now none = false
  is_past now (some e) = ltb_ℤ e (pos now)

  abbrev pub agent_or_rejected : Option (Option Agent) → Outcome
  agent_or_rejected (some (some a)) = authenticated a
  agent_or_rejected _ = rejected "Agent not found or deactivated"

  unfoldable pub agent_of_key : ApiKey → M Number Outcome
  agent_of_key key = do
    found ← attempt (select (active_agent key.agent_id))
    pure (agent_or_rejected found)

  -- The agent of a record of `api_keys`; an error of the look-up is a rejection as well.
  unfoldable pub by_key : ApiKey → M Number Outcome
  unfolding expired_at agent_of_key
  by_key key = do
    now ← gets (λ w. w.clock)
    if expired_at now key.expires_at
        then pure (rejected "API key has expired")
        else agent_of_key key

  -- The agent whose own key it is.
  unfoldable pub by_legacy_key : ℕ → Option (Option Agent) → Outcome
  by_legacy_key now none = failed
  by_legacy_key now (some none) = rejected "Invalid or revoked API key"
  by_legacy_key now (some (some a)) =
      if is_past now a.api_key_expires_at then rejected "API key has expired" else authenticated a

  unfoldable pub look_up : String → Option (Option ApiKey) → M Number Outcome
  unfolding by_key by_legacy_key
  look_up hashed (some (some key)) = by_key key
  look_up hashed _ = do
    now ← gets (λ w. w.clock)
    found ← attempt (select (legacy_agent hashed))
    pure (by_legacy_key now found)

  -- The use of a key is recorded; an error is dropped.
  unfoldable pub record_use : String → Outcome → M Number Outcome
  record_use path (authenticated a) = do
    _ ← attempt (
        record_entry P (some a.id) "api_key_used"
          (object (("agent_name", text a.name) ∷ ("path", text path) ∷ [])))
    pure (authenticated a)
  record_use path outcome = pure outcome

  -- `auth_middleware`, up to the call of the handler
  unfoldable pub auth_middleware : String → String → Option String → M Number Outcome
  unfolding hash_api_key look_up record_use
  auth_middleware secret path none = pure (rejected "Missing X-API-Key header")
  auth_middleware secret path (some api_key) = do
    let hashed = hash_api_key api_key secret
    key ← attempt (select (key_of hashed))
    outcome ← look_up hashed key
    record_use path outcome

  abbrev pub of_claims : Option (Option Agent) → Outcome
  of_claims none = failed
  of_claims (some none) = rejected "Agent not found or deactivated"
  of_claims (some (some a)) = authenticated a

  -- The agent that a valid token names.
  unfoldable pub by_token : Option String → M Number Outcome
  by_token none = pure (rejected "Invalid or expired token")
  by_token (some sub) = do found ← attempt (select (active_agent sub)); pure (of_claims found)

  -- `agent_auth_middleware`; `validate_token` answers with the agent of a valid token
  unfoldable pub agent_auth_middleware :
      (String → Option String) → String → String → Option String → Option String → M Number Outcome
  unfolding by_token auth_middleware
  agent_auth_middleware validate_token secret path (some bearer) api_key =
      by_token (validate_token bearer)
  agent_auth_middleware validate_token secret path none api_key =
      auth_middleware secret path api_key

  -- The agent of a key record joined with its active agent, none if it has expired.
  abbrev pub joined : String → Tables Number → Option (ApiKey × Agent)
  joined hashed t = elim (key_of hashed t) [
    | none ↦ none
    | some key ↦ elim (active_agent key.agent_id t) [ none ↦ none | some a ↦ some (key, a) ]
  ]

  abbrev pub unexpired : ℕ → Option (ApiKey × Agent) → Option Agent
  unexpired now none = none
  unexpired now (some (key, a)) = if expired_at now key.expires_at then none else some a

  unfoldable pub find_joined : String → M Number (Option Agent)
  unfolding expired_at
  find_joined hashed = do
    row ← select (joined hashed)
    now ← gets (λ w. w.clock)
    pure (unexpired now row)

  -- `try_find_key`. The table exists since a migration; an error of the first statement, which asks
  -- for it, is an answer without a key.
  unfoldable pub try_find_key : String → M Number (Option Agent)
  unfolding find_joined
  try_find_key hashed = do
    table_exists ← attempt (select (λ t. tt))
    for_some table_exists none (λ there. find_joined hashed)

  abbrev pub or_legacy : String → Option (Option Agent) → M Number (Option Agent)
  or_legacy hashed (some (some a)) = pure (some a)
  or_legacy hashed _ = select (legacy_agent hashed)

  -- `exchange_token`, up to the signing of the token
  unfoldable pub exchange_token : String → Option String → M Number Agent
  unfolding hash_api_key try_find_key
  exchange_token secret header = do
    api_key ← require (unauthorized "Missing API key") header
    let hashed = hash_api_key api_key secret
    found ← attempt (try_find_key hashed)
    agent ← or_legacy hashed found
    require (unauthorized "Invalid API key") agent
