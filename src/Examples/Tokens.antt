-- ===== src/Examples/Tokens.antt =====
-- A token for an agent's own key.
use deko.Prelude.{◌≡◌, refl, sym, none, some, [], ◌<>◌, string_eq}
use deko.Prelude.Int.{pos, ◌+ℤ◌}
use deko.Errors.{ok}
use deko.World.{Agent, pure, select, attempt, gets, statement, require, for_some, ◌>>=◌}
use deko.Auth.Exchange.{exchange_token-expired}
use deko.Auth.{
  rejected, auth_middleware, authenticated, hash_api_key, exchange_token, try_find_key, find_joined,
}
use deko.Auth.Token.{Signer, authenticate_request, issue_token}
use deko.Auth.Issued.{authenticate_request-issue_token}
use deko.Examples.Access.{at_noon, guarded_world, an_agent}

-- The token is its subject.
abbrev plain_signer : Signer
plain_signer = record {
  encode = λ secret claims. some claims.sub;
  decode = λ now token secret. some (record { sub = token; name = ""; iat = pos 0; exp = pos 0 });
}

authenticate_request-issue_token_example :
    let v =
      (issue_token at_noon plain_signer "j"
        (pos 60)
        "s"
        (some "k1")
        none
        (record guarded_world { faults = [] })).1 in
    (agent : Agent) × (b : Agent) × ((exchange_token at_noon "s"
        (some "k1")
        (record guarded_world { faults = [] })).0
      ≡ ok agent)
    × ((authenticate_request at_noon plain_signer "j" "s" "/action"
          (some ("Bearer " <> "g1"))
          none
          none
          v).0
        ≡ ok (authenticated b))
    × (b.id ≡ agent.id)
unfolding issue_token exchange_token hash_api_key try_find_key find_joined pure select attempt gets
    statement require for_some string_eq ◌+ℤ◌ ◌>>=◌
authenticate_request-issue_token_example =
    authenticate_request-issue_token at_noon plain_signer "j" "s" "/action" (pos 60) (some "k1")
      none none none ("g1", pos 60) guarded_world (λ claims token e lasts. sym e) refl refl

exchange_token-expired_example :
    ((exchange_token at_noon "s" (some "k1") guarded_world).0 ≡ ok an_agent)
    × ((issue_token at_noon plain_signer "j" (pos 60) "s" (some "k1") none guarded_world).0
        ≡ ok ("g1", pos 60))
    × ((auth_middleware at_noon "s" "/actions" (some "k1") guarded_world).0
        ≡ ok (rejected "API key has expired"))
unfolding hash_api_key string_eq
exchange_token-expired_example =
    exchange_token-expired at_noon plain_signer "j" "s" "/actions" "k1" "g1" (pos 60) guarded_world
      an_agent refl refl refl refl
