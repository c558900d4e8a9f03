-- ===== src/Auth/Accepted.antt =====
-- Who is accepted by the middleware.
use deko.Prelude.{
  ◌≢◌, ℕ, ◌≡◌, ◌⊎◌, inl, inr, refl, sym, ap, ◌∙◌, String, Bool, true, false, Option, none, some,
  List, [], ◌∷◌, arith, Bool-cases, string_eq,
}
use mathlib.Core.Path.{subst}
use mathlib.Core.Option.{some-injective, none-ne-some}
use deko.Errors.{Result, ok, err, ok-injective, err-ne-ok}
use deko.Platform.{Platform}
use deko.World.{World, Agent, ApiKey, pure, select, attempt, gets, statement, ◌>>=◌, continue}
use deko.Auth.{
  Outcome, authenticated, rejected, failed, key_of, active_agent, legacy_agent, hash_api_key,
  expired_at, is_past, agent_of_key, agent_or_rejected, by_key, by_legacy_key, look_up, record_use,
  auth_middleware,
}

pub authenticated-injective : {a b : Agent} → authenticated a ≡ authenticated b → a ≡ b
authenticated-injective {a} e =
    ap (λ o. elim o [ authenticated x ↦ x | rejected m ↦ a | failed ↦ a ]) e

pub rejected-ne-authenticated : {m : String} {a : Agent} → rejected m ≢ authenticated a
rejected-ne-authenticated e = ground arith

module _ (P : Platform) where
  -- An active key that has not expired, of an active agent; or an active agent's own key that has
  -- not expired.
  abbrev pub HasKey : World P.Number → String → Agent → Type 0
  HasKey w hashed a =
      ((key : ApiKey) × (key_of hashed w.tables ≡ some key)
        × (expired_at P w.clock key.expires_at ≡ false)
        × (active_agent key.agent_id w.tables ≡ some a))
      ⊎ ((legacy_agent hashed w.tables ≡ some a) × (is_past P w.clock a.api_key_expires_at ≡ false))

  pub legacy_found :
      (now : ℕ) (found : Option (Option Agent)) (a : Agent)
      → by_legacy_key P now found ≡ authenticated a
      → (found ≡ some (some a)) × (is_past P now a.api_key_expires_at ≡ false)
  unfolding by_legacy_key
  legacy_found now none a e = absurd (ground arith)
  legacy_found now (some none) a e = absurd (rejected-ne-authenticated e)
  legacy_found now (some (some b)) a e = elim (Bool-cases (is_past P now b.api_key_expires_at)) [
    | inl expired ↦ absurd (rejected-ne-authenticated (rw expired at e))
    | inr valid ↦
        subst (λ x. (some (some b) ≡ some (some x)) × (is_past P now x.api_key_expires_at ≡ false))
          (authenticated-injective (rw valid at e)) (refl, valid)
  ]

  agent_found :
      (found : Option (Option Agent)) (a : Agent)
      → agent_or_rejected P found ≡ authenticated a
      → found ≡ some (some a)
  agent_found none a e = absurd (rejected-ne-authenticated e)
  agent_found (some none) a e = absurd (rejected-ne-authenticated e)
  agent_found (some (some b)) a e = ap (λ x. some (some x)) (authenticated-injective e)

  -- The later stages, by the fault of their statement.
  agent_of_key_with :
      (w : World P.Number) (fs : List Bool) (key : ApiKey) (a : Agent)
      → (agent_of_key P key (record w { faults = fs })).0 ≡ ok (authenticated a)
      → active_agent key.agent_id w.tables ≡ some a
  unfolding agent_of_key attempt select statement pure ◌>>=◌
  agent_of_key_with w (true ∷ fs) key a e = absurd (rejected-ne-authenticated (ok-injective e))
  agent_of_key_with w [] key a e = some-injective _ _ (agent_found _ a (ok-injective e))
  agent_of_key_with w (false ∷ fs) key a e = some-injective _ _ (agent_found _ a (ok-injective e))

  by_key_with :
      (w : World P.Number) (fs : List Bool) (key : ApiKey) (a : Agent)
      → (by_key P key (record w { faults = fs })).0 ≡ ok (authenticated a)
      → (expired_at P w.clock key.expires_at ≡ false)
        × (active_agent key.agent_id w.tables ≡ some a)
  unfolding by_key gets pure ◌>>=◌
  by_key_with w fs key a e = elim (Bool-cases (expired_at P w.clock key.expires_at)) [
    | inl expired ↦ absurd (rejected-ne-authenticated (ok-injective (rw expired at e)))
    | inr valid ↦ (valid, agent_of_key_with w fs key a (rw valid at e))
  ]

  legacy_with :
      (w : World P.Number) (fs : List Bool) (hashed : String) (a : Agent)
      → (look_up P hashed none (record w { faults = fs })).0 ≡ ok (authenticated a)
      → HasKey w hashed a
  unfolding look_up gets attempt select statement pure ◌>>=◌
  legacy_with w (true ∷ fs) hashed a e =
      absurd (none-ne-some _ (legacy_found w.clock _ a (ok-injective e)).0)
  legacy_with w [] hashed a e =
      let (found, valid) = legacy_found w.clock _ a (ok-injective e) in
      inr (some-injective _ _ found, valid)
  legacy_with w (false ∷ fs) hashed a e =
      let (found, valid) = legacy_found w.clock _ a (ok-injective e) in
      inr (some-injective _ _ found, valid)

  looked_up :
      (w : World P.Number) (fs : List Bool) (hashed : String) (key : Option ApiKey) (a : Agent)
      → key_of hashed w.tables ≡ key
      → (look_up P hashed (some key) (record w { faults = fs })).0 ≡ ok (authenticated a)
      → HasKey w hashed a
  unfolding look_up
  looked_up w fs hashed none a same e = legacy_with w fs hashed a e
  looked_up w fs hashed (some key) a same e =
      let (valid, found) = by_key_with w fs key a e in inl (key, same, valid, found)

  -- Recording the use changes no outcome.
  pub recorded :
      (path : String) (outcome : Outcome) (w : World P.Number)
      → (record_use P path outcome w).0 ≡ ok outcome
  unfolding record_use attempt pure ◌>>=◌
  recorded path (authenticated a) w = refl
  recorded path (rejected m) w = refl
  recorded path failed w = refl

  used :
      (path : String) (r : Result Outcome) (w : World P.Number) (a : Agent)
      → (continue r (record_use P path) w).0 ≡ ok (authenticated a)
      → r ≡ ok (authenticated a)
  used path (err x) w a e = absurd (err-ne-ok e)
  used path (ok outcome) w a e = sym (recorded path outcome w) ∙ e

  auth_with :
      (secret path api_key : String) (w : World P.Number) (fs : List Bool) (a : Agent)
      → (auth_middleware P secret path (some api_key) (record w { faults = fs })).0
        ≡ ok (authenticated a)
      → HasKey w (hash_api_key P api_key secret) a
  unfolding auth_middleware attempt select statement ◌>>=◌
  auth_with secret path api_key w (true ∷ fs) a e = legacy_with w fs _ a (used path _ _ a e)
  auth_with secret path api_key w [] a e = looked_up w [] _ _ a refl (used path _ _ a e)
  auth_with secret path api_key w (false ∷ fs) a e = looked_up w fs _ _ a refl (used path _ _ a e)

-- Whatever statements fail, a request with an API key is let through as an agent only if the hash of
-- the key with the secret is that of an active key, not expired, of that agent, who is active; or
-- that of the active agent's own key, not expired.
pub auth_middleware-HasKey :
    (P : Platform) (secret path api_key : String) (w : World P.Number) (a : Agent)
    → (auth_middleware P secret path (some api_key) w).0 ≡ ok (authenticated a)
    → HasKey P w (hash_api_key P api_key secret) a
auth_middleware-HasKey P secret path api_key w a e = auth_with P secret path api_key w w.faults a e
