-- ===== src/Auth/Exchange.antt =====
-- Where the token exchange and the middleware differ: an agent's own key that has expired.
use deko.Prelude.{◌≡◌, String, true, none, some, [], string_eq}
use deko.Prelude.Int.{ℤ}
use deko.Errors.{ok}
use deko.Platform.{Platform}
use deko.World.{World, Agent, pure, select, attempt, gets, statement, require, for_some, ◌>>=◌}
use deko.Auth.{
  rejected, key_of, legacy_agent, hash_api_key, is_past, find_joined, try_find_key, exchange_token,
  look_up, by_legacy_key, record_use, auth_middleware,
}
use deko.Auth.Token.{Signer, claims_at, issue_token}

-- If no statement fails and the token is signed, an active agent whose own key has expired is
-- answered with a token for it, although the middleware refuses the key.
pub exchange_token-expired :
    (P : Platform) (signer : Signer) (jwt_secret secret path api_key token : String)
    (expiry_secs : ℤ) (w : World P.Number) (a : Agent)
    → key_of (hash_api_key P api_key secret) w.tables ≡ none
    → legacy_agent (hash_api_key P api_key secret) w.tables ≡ some a
    → is_past P w.clock a.api_key_expires_at ≡ true
    → signer.encode jwt_secret (claims_at w.clock a.id a.name expiry_secs) ≡ some token
    → ((exchange_token P secret (some api_key) (record w { faults = [] })).0 ≡ ok a)
      × ((issue_token P signer jwt_secret expiry_secs secret
            (some api_key)
            none
            (record w { faults = [] })).0
          ≡ ok (token, expiry_secs))
      × ((auth_middleware P secret path (some api_key) (record w { faults = [] })).0
          ≡ ok (rejected "API key has expired"))
unfolding exchange_token issue_token find_joined try_find_key for_some auth_middleware look_up
    by_legacy_key record_use gets attempt select statement require pure ◌>>=◌
exchange_token-expired P signer jwt_secret secret path api_key token expiry_secs w a k l x signed =
    (rw (k, l), rw (k, l, signed), rw (k, l, x))
