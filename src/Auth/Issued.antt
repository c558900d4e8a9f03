-- ===== src/Auth/Issued.antt =====
-- A token that was issued authenticates its agent.
use Prim.Native.Char.{code}
use Prim.Native.String.{[] as nil_text, ◌∷◌ as cons_text}
use text.Mathlib.TextLemmas.{nil-append, cons-append}
use deko.Prelude.{
  ◌≡◌, refl, sym, ap, ◌∙◌, inl, inr, arith, ℕ, String, ◌<>◌, Bool, true, ◌&&◌, Option, none, some,
  List, [], ◌∷◌, find, Bool-cases, Option-cases, ◌==◌, string_eq, ==_refl, ==_sound, nat_eq,
}
use deko.Prelude.Int.{ℤ, pos, ltb_ℤ, ◌+ℤ◌}
use deko.Prelude.Text.{strip_prefix}
use mathlib.Core.Path.{subst}
use mathlib.Core.Option.{some-injective}
use deko.Errors.{Result, ok, err, err-ne-ok, ok-injective}
use deko.Platform.{Platform}
use deko.World.{
  World, Agent, pure, raise, select, attempt, gets, statement, require, for_some, ◌>>=◌, continue,
}
use deko.Webhook.{or_else}
use deko.Auth.{
  authenticated, key_of, active_agent, legacy_agent, hash_api_key, expired_at, by_token,
  agent_auth_middleware, joined, unexpired, find_joined, try_find_key, exchange_token,
}
use deko.Auth.Token.{
  Claims, Signer, claims_at, subject_of, bearer, bearer_of, sign_for, authenticate_request,
  issue_token,
}

-- Another look-up of an active agent finds one with the same id.
same_id :
    (p : Agent → Bool) (agents : List Agent) (a : Agent)
    → find (λ x. p x && x.active) agents ≡ some a
    → (b : Agent) × (find (λ x. (x.id == a.id) && x.active) agents ≡ some b) × (b.id ≡ a.id)
same_id p [] a h = absurd (ground (arith, h))
same_id p (x ∷ agents) a h = elim (Bool-cases ((x.id == a.id) && x.active)) [
  | inl same ↦ (x, rw same refl, ==_sound x.id a.id (ground (arith, same)))
  | inr other ↦ elim (Bool-cases (p x && x.active)) [
    | inl found ↦
        let e : x ≡ a = some-injective _ _ (rw found at h) in
        let same : (x.id == a.id) ≡ true =
          subst (λ (y : Agent). (x.id == y.id) ≡ true) e (==_refl x.id) in
        absurd (ground (arith, found, other, same))
    | inr not ↦ let (b, e, k) = same_id p agents a (rw not at h) in (b, rw other e, k)
  ]
]

module _ (P : Platform) (w : World P.Number) where
  abbrev calm : World P.Number
  calm = record w { faults = [] }

  -- The look-up by its id finds an active agent.
  abbrev IsActive : Agent → Type 0
  IsActive a = (b : Agent) × (active_agent a.id w.tables ≡ some b) × (b.id ≡ a.id)

  try_find_key-IsActive :
      (hashed : String)
      → (o : Option Agent) × ((try_find_key P hashed calm).0 ≡ ok o)
        × ((try_find_key P hashed calm).1 ≡ calm)
        × ((a : Agent) → o ≡ some a → IsActive a)
  unfolding try_find_key find_joined attempt select statement gets pure for_some ◌>>=◌
  try_find_key-IsActive hashed = elim (Option-cases (key_of hashed w.tables)) [
    | inl missing ↦
        (none, rw (missing, unexpired, joined) refl, refl, λ a h. absurd (ground (arith, h)))
    | inr (key, e) ↦ elim (Option-cases (active_agent key.agent_id w.tables)) [
      | inl inactive ↦
          (none, rw (e, inactive, unexpired, joined) refl, refl, λ a h. absurd (ground (arith, h)))
      | inr (a, active) ↦ elim (Bool-cases (expired_at P w.clock key.expires_at)) [
        | inl expired ↦ (
          none,
          rw (e, active, expired, unexpired, joined) refl,
          refl,
          λ x h. absurd (ground (arith, h)),
        )
        | inr valid ↦ (
          some a,
          rw (e, active, valid, unexpired, joined) refl,
          refl,
          λ x h. subst IsActive (some-injective _ _ h) (same_id _ w.tables.agents a active),
        )
      ]
    ]
  ]

  found_or_legacy :
      (secret key : String) (agent : Agent) (o : Option Agent)
      → (try_find_key P (hash_api_key P key secret) calm).0 ≡ ok o
      → (try_find_key P (hash_api_key P key secret) calm).1 ≡ calm
      → ((a : Agent) → o ≡ some a → IsActive a)
      → (exchange_token P secret (some key) calm).0 ≡ ok agent
      → IsActive agent × ((exchange_token P secret (some key) calm).1 ≡ calm)
  unfolding exchange_token attempt select statement require raise pure ◌>>=◌
  found_or_legacy secret key agent (some a) e f k h =
      let same = ok-injective (rw e at h) in (k agent (ap some same), rw (e, f) refl)
  found_or_legacy secret key agent none e f k h =
      elim (Option-cases (legacy_agent (hash_api_key P key secret) w.tables)) [
        | inl missing ↦ absurd (err-ne-ok (rw (e, f, missing) at h))
        | inr (a, found) ↦
            let same = ok-injective (rw (e, f, found) at h) in
            (subst IsActive same (same_id _ w.tables.agents a found), rw (e, f, found) refl)
      ]

  exchange_token-IsActive :
      (secret : String) (header : Option String) (agent : Agent)
      → (exchange_token P secret header calm).0 ≡ ok agent
      → IsActive agent × ((exchange_token P secret header calm).1 ≡ calm)
  unfolding exchange_token require raise ◌>>=◌
  exchange_token-IsActive secret (some key) agent h =
      let (o, e, f, k) = try_find_key-IsActive (hash_api_key P key secret) in
      found_or_legacy secret key agent o e f k h
  exchange_token-IsActive secret none agent h = absurd (err-ne-ok h)

strip_prefix-append : (p s : String) → strip_prefix p (p <> s) ≡ some s
unfolding strip_prefix
strip_prefix-append nil_text s = ap (strip_prefix "") (nil-append s)
strip_prefix-append (cons_text c p) s =
    ap (strip_prefix (cons_text c p)) (cons-append c p s)
    ∙ rw (==_refl (code c)) (strip_prefix-append p s)

module _ (P : Platform) (signer : Signer) (jwt_secret secret : String) (w : World P.Number) where
  -- The agent of a token is authenticated by it.
  token_authenticates :
      (path token : String) (query key : Option String) (sub : String) (b : Agent)
      → subject_of (signer.decode w.clock token jwt_secret) ≡ some sub
      → active_agent sub w.tables ≡ some b
      → (authenticate_request P signer jwt_secret secret path
          (some ("Bearer " <> token))
          query
          key
          (record w { faults = [] })).0
        ≡ ok (authenticated b)
  unfolding authenticate_request bearer_of agent_auth_middleware by_token attempt select statement
      gets pure ◌>>=◌
  token_authenticates path token query key sub b valid active =
      rw (strip_prefix-append "Bearer " token, valid, active) refl

  signed :
      (expiry_secs : ℤ) (header : Option String) (r : String × ℤ) (res : Result Agent)
      (u : World P.Number)
      → (exchange_token P secret header (calm P w)).0 ≡ res
      → (exchange_token P secret header (calm P w)).1 ≡ u
      → (continue res (sign_for P signer jwt_secret expiry_secs) u).0 ≡ ok r
      → (agent : Agent) × (res ≡ ok agent)
        × IsActive P w agent
        × (signer.encode jwt_secret (claims_at w.clock agent.id agent.name expiry_secs) ≡ some r.0)
        × ((continue res (sign_for P signer jwt_secret expiry_secs) u).1 ≡ calm P w)
  unfolding gets require raise pure ◌>>=◌
  signed expiry_secs header r (err x) u p q h = absurd (err-ne-ok h)
  signed expiry_secs header r (ok agent) u p q h =
      let (active, kept) = exchange_token-IsActive P w secret header agent p in
      let before = sym q ∙ kept in
      let claims = claims_at u.clock agent.id agent.name expiry_secs in
      elim (Option-cases (signer.encode jwt_secret claims)) [
        | inl unsigned ↦ absurd (err-ne-ok (rw unsigned at h))
        | inr (token, e) ↦
            let same = ok-injective (rw e at h) in
            (
              agent,
              refl,
              active,
              subst
                  (λ (c : ℕ).
                    signer.encode jwt_secret (claims_at c agent.id agent.name expiry_secs)
                    ≡ some r.0)
                  (ap (λ (z : World P.Number). z.clock) before)
                  (e ∙ ap (λ (x : String × ℤ). some x.0) same),
              rw e before,
            )
      ]

-- A token that the exchange issued authenticates, right after and as the bearer of a request, an
-- active agent with the id of the one whose key was exchanged, as long as no statement of the two
-- requests fails. The tokens last for some time, and jsonwebtoken reads out of a token the subject
-- that was signed, under the same secret and before the token expires.
pub authenticate_request-issue_token :
    (P : Platform) (signer : Signer) (jwt_secret secret path : String) (expiry_secs : ℤ)
    (api_key authorization query other_key : Option String) (r : String × ℤ) (w : World P.Number)
    → ((claims : Claims) (token : String)
        → signer.encode jwt_secret claims ≡ some token
        → ltb_ℤ (pos w.clock) claims.exp ≡ true
        → subject_of (signer.decode w.clock token jwt_secret) ≡ some claims.sub)
    → ltb_ℤ (pos w.clock) (pos w.clock +ℤ expiry_secs) ≡ true
    → (issue_token P signer jwt_secret expiry_secs secret api_key authorization
        (record w { faults = [] })).0
      ≡ ok r
    → let v =
        (issue_token P signer jwt_secret expiry_secs secret api_key authorization
          (record w { faults = [] })).1 in
      (agent : Agent) × (b : Agent) × ((exchange_token P secret
          (or_else api_key (bearer authorization))
          (record w { faults = [] })).0
        ≡ ok agent)
      × ((authenticate_request P signer jwt_secret secret path
            (some ("Bearer " <> r.0))
            query
            other_key
            v).0
          ≡ ok (authenticated b))
      × (b.id ≡ agent.id)
unfolding issue_token ◌>>=◌
authenticate_request-issue_token P signer jwt_secret secret path expiry_secs api_key authorization
      query other_key r w law lasts h =
    let header = or_else api_key (bearer authorization) in
    let (agent, exchanged, (b, active, same), token, after) =
      signed P signer jwt_secret secret w expiry_secs header r _ _ refl refl h in
    (
      agent,
      b,
      exchanged,
      rw after (
          token_authenticates P signer jwt_secret secret w path r.0 query other_key _ b
            (law _ r.0 token lasts) active),
      same,
    )
