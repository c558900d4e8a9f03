-- ===== src/Keys/Granted.antt =====
-- The keys that are handed out, at the middleware.
use deko.Prelude.{
  ◌≡◌, refl, ap, ◌∙◌, String, Bool, true, false, ◌&&◌, Option, none, some, List, [], ◌∷◌, ◌++◌,
  find, find-snoc, is_some, Bool-cases, inl, inr, ◌==◌, string_eq, ==_refl, if◌then◌else◌,
}
use deko.Errors.{not_found, ok, ok-injective, err-ne-ok}
use deko.Platform.{Platform}
use deko.Auth.{
  authenticated, key_of, active_agent, hash_api_key, expired_at, agent_of_key, by_key, look_up,
  auth_middleware,
}
use deko.Auth.Accepted.{recorded}
use deko.World.{
  World, Agent, ApiKey, pure, raise, select, execute, statement, attempt, gets, draw, ◌>>=◌,
}
use deko.Keys.{CreateApiKeyResponse, insert_key, create_api_key}

module _ (P : Platform) (secret path api_key : String) (v : World P.Number) where
  by_stored_key :
      (k : ApiKey) (a : Agent)
      → key_of (hash_api_key P api_key secret) v.tables ≡ some k
      → expired_at P v.clock k.expires_at ≡ false
      → active_agent k.agent_id v.tables ≡ some a
      → (auth_middleware P secret path (some api_key) (record v { faults = [] })).0
        ≡ ok (authenticated a)
  unfolding auth_middleware look_up by_key agent_of_key attempt select statement gets pure ◌>>=◌
  by_stored_key k a stored valid found =
      rw (stored, valid, found) (recorded P path (authenticated a) (record v { faults = [] }))

module _ (P : Platform) (secret agent_id : String) (label : Option String) where
  -- `v` holds one key more than `w`, that of the answer.
  record IsStored (w : World P.Number) (r : CreateApiKeyResponse) (v : World P.Number)
      : Type 0 where
    key : ApiKey
    keys : v.tables.api_keys ≡ w.tables.api_keys ++ (key ∷ [])
    agents : v.tables.agents ≡ w.tables.agents
    hashed : key.key_hash ≡ hash_api_key P r.api_key secret
    active : key.active ≡ true
    owner : key.agent_id ≡ agent_id
    unlimited : key.expires_at ≡ none

  inserted :
      (w : World P.Number) (fs : List Bool) (r : CreateApiKeyResponse)
      → (insert_key P (some secret) agent_id label (record w { faults = fs })).0 ≡ ok r
      → IsStored w r (insert_key P (some secret) agent_id label (record w { faults = fs })).1
  unfolding insert_key execute statement gets draw pure ◌>>=◌
  inserted w (true ∷ fs) r e = absurd (err-ne-ok e)
  inserted w [] r e = record {
    key = _;
    keys = refl;
    agents = refl;
    hashed = ap (λ x. hash_api_key P x.api_key secret) (ok-injective e);
    active = refl;
    owner = refl;
    unlimited = refl;
  }
  inserted w (false ∷ fs) r e = record {
    key = _;
    keys = refl;
    agents = refl;
    hashed = ap (λ x. hash_api_key P x.api_key secret) (ok-injective e);
    active = refl;
    owner = refl;
    unlimited = refl;
  }

  -- The agent is active, and the answer is that of the insertion.
  granted :
      (w : World P.Number) (fs : List Bool) (found : Option Agent) (r : CreateApiKeyResponse)
      → active_agent agent_id w.tables ≡ found
      → let m =
          if is_some found
          then insert_key P (some secret) agent_id label
          else raise (not_found "Active agent not found") in
        (m (record w { faults = fs })).0 ≡ ok r
        → ((a : Agent) × (active_agent agent_id w.tables ≡ some a))
          × IsStored w r (m (record w { faults = fs })).1
  unfolding raise
  granted w fs none r same e = absurd (err-ne-ok e)
  granted w fs (some a) r same e = ((a, same), inserted w fs r e)

  answered :
      (w : World P.Number) (fs : List Bool) (admin : String) (r : CreateApiKeyResponse)
      → (admin == "") ≡ false
      → (create_api_key P (some secret) admin agent_id label (record w { faults = fs })).0 ≡ ok r
      → ((a : Agent) × (active_agent agent_id w.tables ≡ some a))
        × IsStored w r
            (create_api_key P (some secret) admin agent_id label (record w { faults = fs })).1
  unfolding create_api_key raise select statement ◌>>=◌
  answered w (true ∷ fs) admin r named e = absurd (err-ne-ok (rw named at e))
  answered w [] admin r named e = rw named (granted w [] _ r refl (rw named at e))
  answered w (false ∷ fs) admin r named e = rw named (granted w fs _ r refl (rw named at e))

  named_admin :
      (w : World P.Number) (admin : String) (r : CreateApiKeyResponse)
      → (create_api_key P (some secret) admin agent_id label w).0 ≡ ok r
      → (admin == "") ≡ false
  unfolding create_api_key raise
  named_admin w admin r e = elim (Bool-cases (admin == "")) [
    | inl nobody ↦ absurd (err-ne-ok (rw nobody at e))
    | inr named ↦ named
  ]

  accepted :
      (w v : World P.Number) (path : String) (r : CreateApiKeyResponse) (a : Agent)
      → key_of (hash_api_key P r.api_key secret) w.tables ≡ none
      → active_agent agent_id w.tables ≡ some a
      → IsStored w r v
      → (auth_middleware P secret path (some r.api_key) (record v { faults = [] })).0
        ≡ ok (authenticated a)
  unfolding expired_at
  accepted w v path r a fresh found s =
      by_stored_key P secret path r.api_key v s.key a
        (ap (find (λ k. (k.key_hash == hash_api_key P r.api_key secret) && k.active)) s.keys
          ∙ find-snoc _ w.tables.api_keys s.key fresh (
              rw (s.hashed, s.active)
                (ap (λ b. b && true) (==_refl (hash_api_key P r.api_key secret)))))
        (rw s.unlimited refl) (rw (s.owner, s.agents) found)

-- An API key that create_api_key answers with, under the secret of the process and a hash that no
-- active key has yet, authenticates the active agent that it was created for, as long as no
-- statement of the request fails.
pub auth_middleware-create_api_key :
    (P : Platform) (secret admin agent_id path : String) (label : Option String)
    (w : World P.Number) (r : CreateApiKeyResponse)
    → (create_api_key P (some secret) admin agent_id label w).0 ≡ ok r
    → key_of (hash_api_key P r.api_key secret) w.tables ≡ none
    → (a : Agent) × (active_agent agent_id w.tables ≡ some a)
      × ((auth_middleware P secret path
            (some r.api_key)
            (record (create_api_key P (some secret) admin agent_id label w).1 { faults = [] })).0
          ≡ ok (authenticated a))
auth_middleware-create_api_key P secret admin agent_id path label w r e fresh =
    let named = named_admin P secret agent_id label w admin r e in
    let ((a, found), stored) = answered P secret agent_id label w w.faults admin r named e in
    (a, found, accepted P secret agent_id label w _ path r a fresh found stored)
