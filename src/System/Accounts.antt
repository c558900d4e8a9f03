-- ===== src/System/Accounts.antt =====
-- Credentials, keys and sessions, under a relation that allows the changes of the entry points.
use deko.Prelude.{String, Bool, true, false, Option, none, some, List, string_eq}
use deko.Platform.{Platform}
use deko.Audit.Steps.{Keeps-record_entry}
use deko.World.{World, Tables, Agent, ApiKey, Session, PolicyRow, execute, statement}
use deko.World.Steps.{
  Keeps, IsStep, keeps_rules, Keeps-bind, Keeps-execute, Keeps-statement, Keeps-gets, Keeps-draw,
  Keeps-pure,
}
use deko.Auth.{
  Outcome, authenticated, rejected, failed, agent_of_key, by_key, look_up, record_use,
  auth_middleware, by_token, agent_auth_middleware, find_joined, try_find_key, or_legacy,
  exchange_token,
}
use deko.Session as Sessions
use deko.Keys
use deko.PolicyRoutes.{
  CreatePolicyRequest, UpdatePolicyRequest, create_policy, update_found, update_policy,
  record_deleted, delete_policy,
}
use deko.System.Rules.{Allows}

module _ (P : Platform) (R : World P.Number → World P.Number → Type 0) (S : IsStep R)
    (allows : Allows P R S) where
  Keeps-by_key : (key : ApiKey) → Keeps R (by_key P key)
  unfolding by_key agent_of_key
  Keeps-by_key key = search (keeps_rules, S)

  Keeps-look_up :
      (hashed : String) (found : Option (Option ApiKey)) → Keeps R (look_up P hashed found)
  unfolding look_up
  Keeps-look_up hashed none = search (keeps_rules, S)
  Keeps-look_up hashed (some none) = search (keeps_rules, S)
  Keeps-look_up hashed (some (some key)) = Keeps-by_key key

  Keeps-record_use : (path : String) (outcome : Outcome) → Keeps R (record_use P path outcome)
  unfolding record_use
  Keeps-record_use path (authenticated a) =
      search (keeps_rules, S, Keeps-record_entry P R S allows.entry)
  Keeps-record_use path (rejected m) = search (keeps_rules, S)
  Keeps-record_use path failed = search (keeps_rules, S)

  Keeps-auth_middleware :
      (secret path : String) (key : Option String) → Keeps R (auth_middleware P secret path key)
  unfolding auth_middleware
  Keeps-auth_middleware secret path none = search (keeps_rules, S)
  Keeps-auth_middleware secret path (some key) =
      search (keeps_rules, S, Keeps-look_up, Keeps-record_use)

  Keeps-by_token : (sub : Option String) → Keeps R (by_token P sub)
  unfolding by_token
  Keeps-by_token none = search (keeps_rules, S)
  Keeps-by_token (some sub) = search (keeps_rules, S)

  pub Keeps-agent_auth_middleware :
      (validate_token : String → Option String) (secret path : String) (bearer key : Option String)
      → Keeps R (agent_auth_middleware P validate_token secret path bearer key)
  unfolding agent_auth_middleware
  Keeps-agent_auth_middleware validate_token secret path none key =
      Keeps-auth_middleware secret path key
  Keeps-agent_auth_middleware validate_token secret path (some token) key = Keeps-by_token _

  Keeps-try_find_key : (hashed : String) → Keeps R (try_find_key P hashed)
  unfolding try_find_key find_joined
  Keeps-try_find_key hashed = search (keeps_rules, S)

  Keeps-or_legacy :
      (hashed : String) (found : Option (Option Agent)) → Keeps R (or_legacy P hashed found)
  Keeps-or_legacy hashed none = search (keeps_rules, S)
  Keeps-or_legacy hashed (some none) = search (keeps_rules, S)
  Keeps-or_legacy hashed (some (some a)) = search (keeps_rules, S)

  pub Keeps-exchange_token :
      (secret : String) (header : Option String) → Keeps R (exchange_token P secret header)
  unfolding exchange_token
  Keeps-exchange_token secret header =
      search (keeps_rules, S, Keeps-try_find_key, Keeps-or_legacy) depth 8

  Keeps-insert_agent :
      (id name key secret : String) → Keeps R (Keys.insert_agent P id name key secret)
  unfolding Keys.insert_agent
  Keeps-insert_agent id name key secret = Keeps-bind R S _ _ (Keeps-gets R S _) (λ now.
      Keeps-bind R S _ _
        (Keeps-execute R S _
          (λ w. allows.accounts w _ w.tables.api_keys w.tables.sessions w.tables.policies))
        (λ done. search (keeps_rules, S, Keeps-record_entry P R S allows.entry)))

  pub Keeps-register_agent :
      (secret : Option String) (admin name : String)
      → Keeps R (Keys.register_agent P secret admin name)
  unfolding Keys.register_agent
  Keeps-register_agent secret admin name = search (keeps_rules, S, Keeps-insert_agent) depth 8

  Keeps-record_revoked :
      (id : String) (reason : Option String) (found : Bool)
      → Keeps R (Keys.record_revoked P id reason found)
  unfolding Keys.record_revoked
  Keeps-record_revoked id reason false = search (keeps_rules, S)
  Keeps-record_revoked id reason true =
      search (keeps_rules, S, Keeps-record_entry P R S allows.entry)

  Keeps-agents :
      (f : Tables P.Number → Bool) (g : Tables P.Number → List Agent)
      → Keeps R (statement (λ t. (f t, record t { agents = g t })))
  Keeps-agents f g =
      Keeps-statement R S _
        (λ w. allows.accounts w (g w.tables) w.tables.api_keys w.tables.sessions w.tables.policies)

  pub Keeps-revoke_agent :
      (admin id : String) (reason : Option String) → Keeps R (Keys.revoke_agent P admin id reason)
  unfolding Keys.revoke_agent
  Keeps-revoke_agent admin id reason =
      search (keeps_rules, S, Keeps-agents, Keeps-record_revoked) depth 8

  Keeps-insert_key :
      (secret : Option String) (id : String) (label : Option String)
      → Keeps R (Keys.insert_key P secret id label)
  unfolding Keys.insert_key
  Keeps-insert_key secret id label = Keeps-bind R S _ _ (Keeps-draw R S) (λ drawn.
      Keeps-bind R S _ _ (Keeps-gets R S _) (λ now. Keeps-bind R S _ _ (Keeps-draw R S) (λ key_id.
        Keeps-bind R S _ _
          (Keeps-execute R S _
            (λ w. allows.accounts w w.tables.agents _ w.tables.sessions w.tables.policies))
          (λ done. Keeps-pure R S _))))

  pub Keeps-create_api_key :
      (secret : Option String) (admin id : String) (label : Option String)
      → Keeps R (Keys.create_api_key P secret admin id label)
  unfolding Keys.create_api_key
  Keeps-create_api_key secret admin id label = search (keeps_rules, S, Keeps-insert_key) depth 8

  pub Keeps-rotate_agent_key :
      {A : Type 0} (secret : Option String) (admin : String)
      → Keeps R (Keys.rotate_agent_key P {A = A} secret admin)
  unfolding Keys.rotate_agent_key
  Keeps-rotate_agent_key secret admin = search (keeps_rules, S) depth 8

  Keeps-sessions :
      (f : Tables P.Number → List Session) → Keeps R (execute (λ t. record t { sessions = f t }))
  Keeps-sessions f =
      Keeps-execute R S _
        (λ w. allows.accounts w w.tables.agents w.tables.api_keys (f w.tables) w.tables.policies)

  pub Keeps-create : (identity : String) → Keeps R (Sessions.create P identity)
  unfolding Sessions.create Sessions.random_token
  Keeps-create identity = search (keeps_rules, S, Keeps-sessions) depth 8

  Keeps-check_session : (s : Session) → Keeps R (Sessions.check_session P s)
  unfolding Sessions.check_session
  Keeps-check_session s = search (keeps_rules, S, Keeps-sessions)

  pub Keeps-validate : (token : String) → Keeps R (Sessions.validate P token)
  unfolding Sessions.validate
  Keeps-validate token = search (keeps_rules, S, Keeps-check_session)

  pub Keeps-delete : (token : String) → Keeps R (Sessions.delete P token)
  unfolding Sessions.delete
  Keeps-delete token = Keeps-sessions _

  pub Keeps-purge_expired : Keeps R (Sessions.purge_expired P)
  unfolding Sessions.purge_expired
  Keeps-purge_expired = Keeps-bind R S _ _ (Keeps-gets R S _) (λ now.
      Keeps-statement R S _
        (λ w. allows.accounts w w.tables.agents w.tables.api_keys _ w.tables.policies))

  Keeps-policies :
      (f : Tables P.Number → List (PolicyRow P.Number))
      → Keeps R (execute (λ t. record t { policies = f t }))
  Keeps-policies f =
      Keeps-execute R S _
        (λ w. allows.accounts w w.tables.agents w.tables.api_keys w.tables.sessions (f w.tables))

  pub Keeps-create_policy : (req : CreatePolicyRequest P.Number) → Keeps R (create_policy P req)
  unfolding create_policy
  Keeps-create_policy req =
      search (keeps_rules, S, Keeps-policies, Keeps-record_entry P R S allows.entry) depth 8

  Keeps-update_found :
      (id : String) (req : UpdatePolicyRequest P.Number) (found : Bool)
      → Keeps R (update_found P id req found)
  unfolding update_found
  Keeps-update_found id req false = search (keeps_rules, S)
  Keeps-update_found id req true =
      search (keeps_rules, S, Keeps-policies, Keeps-record_entry P R S allows.entry) depth 8

  pub Keeps-update_policy :
      (id : String) (req : UpdatePolicyRequest P.Number) → Keeps R (update_policy P id req)
  unfolding update_policy
  Keeps-update_policy id req = search (keeps_rules, S, Keeps-update_found)

  Keeps-record_deleted : (id : String) (found : Bool) → Keeps R (record_deleted P id found)
  unfolding record_deleted
  Keeps-record_deleted id false = search (keeps_rules, S)
  Keeps-record_deleted id true = search (keeps_rules, S, Keeps-record_entry P R S allows.entry)

  pub Keeps-delete_policy : (id : String) → Keeps R (delete_policy P id)
  unfolding delete_policy
  Keeps-delete_policy id = Keeps-bind R S _ _ (Keeps-gets R S _) (λ now.
      Keeps-bind R S _ _
        (Keeps-statement R S _
          (λ w. allows.accounts w w.tables.agents w.tables.api_keys w.tables.sessions _))
        (Keeps-record_deleted id))
