-- ===== src/Keys/Revoked.antt =====
-- An agent that was revoked, at the middleware.
use deko.Prelude.Int.{pos}
use deko.Prelude.{
  ◌≡◌, ◌≢◌, refl, sym, ap, ◌∙◌, arith, String, Bool, true, false, ◌&&◌, ◌⊎◌, inl, inr, Option, none,
  some, List, [], ◌∷◌, find, All, Bool-cases, ◌==◌, string_eq,
}
use mathlib.Core.Path.{subst}
use mathlib.Core.Option.{some-injective, none-ne-some}
use deko.Errors.{ok, ok-injective, err-ne-ok}
use deko.Platform.{Platform}
use deko.Audit.Steps.{Keeps-record_entry}
use deko.Auth.{
  authenticated, active_agent, of_claims, by_token, auth_middleware, agent_auth_middleware,
  hash_api_key,
}
use deko.Auth.Accepted.{
  authenticated-injective, rejected-ne-authenticated, HasKey, auth_middleware-HasKey,
}
use deko.World.{World, Agent, pure, raise, select, statement, attempt, gets, ◌>>=◌}
use deko.World.Steps.{IsStep}
use deko.Keys.{deactivate, record_revoked, revoke_agent}

-- No active agent has the id.
abbrev IsShut : String → List Agent → Type 0
IsShut id agents = All (λ a. a.id ≡ id → a.active ≡ false) agents

deactivate-IsShut :
    (id : String) (reason : Option String) (now : String) (agents : List Agent)
    → IsShut id (deactivate id reason now agents)
unfolding deactivate
deactivate-IsShut id reason now [] = tt
deactivate-IsShut id reason now (a ∷ agents) =
    (ground arith, deactivate-IsShut id reason now agents)

-- A look-up of active agents finds none of that id.
find-IsShut :
    (id : String) (q : Agent → Bool) (agents : List Agent) (a : Agent)
    → IsShut id agents
    → find (λ x. q x && x.active) agents ≡ some a
    → a.id ≢ id
find-IsShut id q [] a shut e same = absurd (none-ne-some a e)
find-IsShut id q (x ∷ agents) a (here, there) e same = elim (Bool-cases (q x && x.active)) [
  | inl found ↦
      let is : x ≡ a = some-injective _ _ (rw found at e) in
      let inactive = here (ap (λ y. y.id) is ∙ same) in absurd (ground (arith, found, inactive))
  | inr other ↦ find-IsShut id q agents a there (rw other at e) same
]

module _ (P : Platform) (id : String) (v : World P.Number) (shut : IsShut id v.tables.agents) where
  key-IsShut : (hashed : String) (a : Agent) → HasKey P v hashed a → a.id ≢ id
  key-IsShut hashed a (inl (key, stored, valid, found)) =
      find-IsShut id (λ x. x.id == key.agent_id) v.tables.agents a shut found
  key-IsShut hashed a (inr (found, valid)) =
      find-IsShut id (λ x. x.api_key_hash == hashed) v.tables.agents a shut found

  of_claims-IsShut :
      (found : Option (Option Agent)) (sub : String) (a : Agent)
      → (found ≡ none) ⊎ (found ≡ some (active_agent sub v.tables))
      → of_claims P found ≡ authenticated a
      → a.id ≢ id
  of_claims-IsShut none sub a h e = absurd (ground (arith, e))
  of_claims-IsShut (some none) sub a h e = absurd (rejected-ne-authenticated e)
  of_claims-IsShut (some (some b)) sub a (inl h) e = absurd (none-ne-some _ (sym h))
  of_claims-IsShut (some (some b)) sub a (inr h) e =
      find-IsShut id (λ x. x.id == sub) v.tables.agents a shut
        (sym (some-injective _ _ h) ∙ ap some (authenticated-injective e))

  by_token-IsShut :
      (fs : List Bool) (sub : Option String) (a : Agent)
      → (by_token P sub (record v { faults = fs })).0 ≡ ok (authenticated a)
      → a.id ≢ id
  unfolding by_token attempt select statement pure ◌>>=◌
  by_token-IsShut fs none a e = absurd (rejected-ne-authenticated (ok-injective e))
  by_token-IsShut (true ∷ fs) (some sub) a e = of_claims-IsShut _ sub a (inl refl) (ok-injective e)
  by_token-IsShut [] (some sub) a e = of_claims-IsShut _ sub a (inr refl) (ok-injective e)
  by_token-IsShut (false ∷ fs) (some sub) a e = of_claims-IsShut _ sub a (inr refl) (ok-injective e)

  request-IsShut :
      (validate_token : String → Option String) (secret path : String)
      (bearer api_key : Option String) (fs : List Bool) (a : Agent)
      → (agent_auth_middleware P validate_token secret path bearer api_key
          (record v { faults = fs })).0
        ≡ ok (authenticated a)
      → a.id ≢ id
  unfolding agent_auth_middleware
  request-IsShut validate_token secret path (some token) api_key fs a e =
      by_token-IsShut fs (validate_token token) a e
  request-IsShut validate_token secret path none none fs a e =
      absurd (unfold auth_middleware pure in rejected-ne-authenticated (ok-injective e))
  request-IsShut validate_token secret path none (some key) fs a e =
      key-IsShut (hash_api_key P key secret) a
        (auth_middleware-HasKey P secret path key (record v { faults = fs }) a e)

abbrev SameAgents : {N : Type 0} → World N → World N → Type 0
SameAgents u v = v.tables.agents ≡ u.tables.agents

SameAgents-IsStep : {N : Type 0} → IsStep (SameAgents {N = N})
SameAgents-IsStep = record {
  same = λ w fs n. refl;
  trans = λ u v w h k. k ∙ h;
  back = λ u v h. refl;
}

module _ (P : Platform) (id : String) (reason : Option String) where
  recorded-IsShut :
      (found : Bool) (v : World P.Number) (x : String)
      → IsShut id v.tables.agents
      → (record_revoked P id reason found v).0 ≡ ok x
      → IsShut id (record_revoked P id reason found v).1.tables.agents
  unfolding record_revoked raise attempt pure ◌>>=◌
  recorded-IsShut false v x shut e = shut
  recorded-IsShut true v x shut e =
      let kept =
        (Keeps-record_entry P SameAgents SameAgents-IsStep (λ w i a t d c. refl) (some id)
            "agent_revoked" _).at
          v in
      subst (IsShut id) (sym kept) shut

  deactivated : World P.Number → List Bool → World P.Number
  deactivated w fs = record w {
    faults = fs;
    tables = record w.tables {
      agents = deactivate id reason (P.sqlite_time (pos w.clock)) w.tables.agents;
    };
  }

  revoked-IsShut :
      (fs : List Bool) (admin : String) (w : World P.Number) (x : String)
      → (admin == "") ≡ false
      → (revoke_agent P admin id reason (record w { faults = fs })).0 ≡ ok x
      → IsShut id (revoke_agent P admin id reason (record w { faults = fs })).1.tables.agents
  unfolding revoke_agent raise gets statement ◌>>=◌ deactivated
  revoked-IsShut (true ∷ fs) admin w x named e = absurd (err-ne-ok (rw named at e))
  revoked-IsShut [] admin w x named e = rw named (
      recorded-IsShut _ (deactivated w []) x (deactivate-IsShut id reason _ w.tables.agents)
        (rw named at e))
  revoked-IsShut (false ∷ fs) admin w x named e = rw named (
      recorded-IsShut _ (deactivated w fs) x (deactivate-IsShut id reason _ w.tables.agents)
        (rw named at e))

  named_admin :
      (admin : String) (w : World P.Number) (x : String)
      → (revoke_agent P admin id reason w).0 ≡ ok x
      → (admin == "") ≡ false
  unfolding revoke_agent raise
  named_admin admin w x e = elim (Bool-cases (admin == "")) [
    | inl nobody ↦ absurd (err-ne-ok (rw nobody at e))
    | inr named ↦ named
  ]

-- Once a revocation has succeeded, no request, with a token or an API key, is authenticated as an
-- agent of that id, whatever statements of the request fail, and whether or not the entry of the
-- revocation was stored.
pub agent_auth_middleware-revoke_agent :
    (P : Platform) (admin agent_id : String) (reason : Option String) (w : World P.Number)
    (x : String) (validate_token : String → Option String) (secret path : String)
    (bearer api_key : Option String) (fs : List Bool) (a : Agent)
    → (revoke_agent P admin agent_id reason w).0 ≡ ok x
    → (agent_auth_middleware P validate_token secret path bearer api_key
        (record (revoke_agent P admin agent_id reason w).1 { faults = fs })).0
      ≡ ok (authenticated a)
    → a.id ≢ agent_id
agent_auth_middleware-revoke_agent P admin id reason w x validate_token secret path bearer api_key
      fs a done e =
    let named = named_admin P id reason admin w x done in
    request-IsShut P id (revoke_agent P admin id reason w).1
      (revoked-IsShut P id reason w.faults admin w x named done) validate_token secret path bearer
      api_key fs a e
