-- ===== src/Auth/Token.antt =====
-- middleware/jwt.rs, and what middleware/auth.rs and routes/token.rs read out of a request. A header
-- is given by its text. `Signer` is the crate jsonwebtoken; a token is checked at a time.
use deko.Prelude.{
  ℕ, String, Option, none, some, List, [], ◌∷◌, if◌then◌else◌, ◌==◌, string_eq, ◌>>=◌ as ◌>>=?◌,
}
use deko.Prelude.Int.{ℤ, pos, ◌+ℤ◌}
use deko.Prelude.Text.{strip_prefix}
use deko.Prelude.Parse.{split}
use deko.Errors.{internal}
use deko.Platform.{Platform}
use deko.World.{M, Agent, pure, gets, require, ◌>>=◌}
use deko.Auth.{Outcome, agent_auth_middleware, exchange_token}
use deko.Webhook.{or_else}

pub record Claims : Type 0 where
  pub sub : String
  pub name : String
  pub iat : ℤ
  pub exp : ℤ

pub record Signer : Type 0 where
  pub encode : String → Claims → Option String
  pub decode : ℕ → String → String → Option Claims

abbrev pub claims_at : ℕ → String → String → ℤ → Claims
claims_at now agent_id agent_name expiry_secs = record {
  sub = agent_id;
  name = agent_name;
  iat = pos now;
  exp = pos now +ℤ expiry_secs;
}

abbrev pub bearer : Option String → Option String
bearer authorization = authorization >>=? strip_prefix "Bearer "

abbrev token_or : Option String → Option String → Option String
token_or none next = next
token_or (some t) next = if t == "" then next else some t

unfoldable pub token_param : List String → Option String
unfolding strip_prefix
token_param [] = none
token_param (pair ∷ pairs) = token_or (strip_prefix "token=" pair) (token_param pairs)

-- The header, or the query of a socket.
unfoldable pub bearer_of : Option String → Option String → Option String
unfolding strip_prefix split token_param
bearer_of authorization query =
    or_else (bearer authorization) (query >>=? (λ q. token_param (split b'&' q)))

abbrev pub subject_of : Option Claims → Option String
subject_of none = none
subject_of (some claims) = some claims.sub

module _ (P : Platform) (signer : Signer) where
  open P use {Number}

  -- `agent_auth_middleware` on a request.
  unfoldable pub authenticate_request :
      String → String → String → Option String → Option String → Option String → M Number Outcome
  unfolding bearer_of agent_auth_middleware
  authenticate_request jwt_secret secret path authorization query api_key = do
    now ← gets (λ w. w.clock)
    agent_auth_middleware P (λ token. subject_of (signer.decode now token jwt_secret)) secret path
        (bearer_of authorization query) api_key

  abbrev pub sign_for : String → ℤ → Agent → M Number (String × ℤ)
  sign_for jwt_secret expiry_secs agent = do
    now ← gets (λ w. w.clock)
    token ←
        require internal (signer.encode jwt_secret (claims_at now agent.id agent.name expiry_secs))
    pure (token, expiry_secs)

  -- `exchange_token` with its credentials and its answer: the token and its seconds.
  unfoldable pub issue_token :
      String → ℤ → String → Option String → Option String → M Number (String × ℤ)
  unfolding exchange_token strip_prefix
  issue_token jwt_secret expiry_secs secret api_key authorization =
      exchange_token P secret (or_else api_key (bearer authorization))
      >>= sign_for jwt_secret expiry_secs
