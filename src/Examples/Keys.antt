-- ===== src/Examples/Keys.antt =====
-- A key that is created, and an agent that is revoked.
use deko.Prelude.{◌≡◌, ◌≢◌, refl, String, none, some, [], ◌∷◌, string_eq}
use deko.Errors.{ok}
use deko.World.{
  transaction, World, Agent, pure, select, execute, statement, attempt, gets, draw, ◌>>=◌,
}
use deko.Prelude.Text.{show_nat}
use deko.Audit.Record.{record_entry}
use deko.Auth.{
  authenticated, active_agent, auth_middleware, agent_auth_middleware, hash_api_key, look_up,
  by_key, agent_of_key, expired_at, by_token, record_use,
}
use deko.Keys.{deactivate, record_revoked, insert_key, create_api_key, revoke_agent}
use deko.Keys.Granted.{auth_middleware-create_api_key}
use deko.Keys.Revoked.{agent_auth_middleware-revoke_agent}
use deko.Examples.Access.{at_noon, an_agent, guarded_world}

auth_middleware-create_api_key_example :
    (a : Agent) × (active_agent "g1" guarded_world.tables ≡ some a)
    × ((auth_middleware at_noon "s" "/actions"
          (some "g1-0")
          (record (create_api_key at_noon (some "s") "root" "g1" none guarded_world).1 {
            faults = [];
          })).0
        ≡ ok (authenticated a))
unfolding create_api_key insert_key select execute statement gets draw pure hash_api_key string_eq
    ◌>>=◌ show_nat
auth_middleware-create_api_key_example =
    auth_middleware-create_api_key at_noon "s" "root" "g1" "/actions" none guarded_world
      (record { api_key = "g1-0"; label = "additional-key" }) refl refl

-- Another agent.
abbrev other_agent : Agent
other_agent = record an_agent { id = "g2"; api_key_hash = "k3:s"; api_key_expires_at = none }

abbrev two_agents : World at_noon.Number
two_agents = record guarded_world {
  tables = record guarded_world.tables { agents = an_agent ∷ other_agent ∷ [] };
}

agent_auth_middleware-revoke_agent_example : ◌≢◌ {A = String} "g2" "g1"
unfolding revoke_agent record_revoked deactivate agent_auth_middleware by_token auth_middleware
    hash_api_key look_up by_key agent_of_key expired_at record_use attempt select statement gets
    pure string_eq ◌>>=◌ record_entry transaction draw execute
agent_auth_middleware-revoke_agent_example =
    agent_auth_middleware-revoke_agent at_noon "root" "g1" none two_agents "g1" (λ s. some "g2") "s"
      "/actions" (some "t") none [] other_agent refl refl
