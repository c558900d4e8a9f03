-- ===== src/Session.antt =====
-- services/session.rs: the admin sessions. A token is drawn at random; only its hash is stored.
pub mod Validity
use deko.Prelude.{
  ℕ, ◌+◌, ◌-◌, String, ◌<>◌, Bool, not, Option, none, some, List, [], ◌∷◌, ◌++◌, keep, find, length,
  ◌==◌, string_eq, if◌then◌else◌,
}
use deko.Prelude.Int.{pos}
use deko.Prelude.Text.{leb_text}
use deko.Platform.{Platform}
use deko.World.{
  World, Tables, Session, M, pure, select, execute, statement, gets, draw, for_some, ◌>>=◌, ◌>>◌,
}

abbrev pub session_ttl : ℕ
session_ttl = 28800

abbrev pub drop_session : {N : Type 0} → String → Tables N → Tables N
drop_session id t = record t { sessions = keep (λ s. not (s.id == id)) t.sessions }

module _ (P : Platform) where
  open P use {Number, sha256, simple_uuid, sqlite_time}

  unfoldable pub hash_token : String → String
  hash_token token = sha256 token

  unfoldable pub random_token : M Number String
  random_token = do a ← draw; b ← draw; pure (simple_uuid a <> simple_uuid b)

  unfoldable pub create : String → M Number String
  unfolding random_token hash_token
  create identity = do
    token ← random_token
    now ← gets (λ w. w.clock)
    let session : Session = record {
      id = hash_token token;
      identity = identity;
      expires_at = sqlite_time (pos (now + session_ttl));
    }
    _ ← execute (λ t. record t { sessions = t.sessions ++ (session ∷ []) })
    pure token

  -- What is done with the row of the token.
  unfoldable pub check_session : Session → M Number (Option String)
  check_session s = do
    now ← gets (λ w. sqlite_time (pos w.clock))
    if leb_text s.expires_at now then execute (drop_session s.id) >> pure none else pure (some s.id)

  abbrev pub find_session : String → Tables Number → Option Session
  find_session id t = find (λ s. s.id == id) t.sessions

  unfoldable pub validate : String → M Number (Option String)
  unfolding hash_token check_session
  validate token = do
    row ← select (find_session (hash_token token))
    for_some row none check_session

  unfoldable pub delete : String → M Number (Unit {0})
  unfolding hash_token
  delete token = execute (drop_session (hash_token token))

  -- The number of the rows that are deleted.
  unfoldable pub purge_expired : M Number ℕ
  purge_expired = do
    now ← gets (λ w. sqlite_time (pos w.clock))
    statement (λ t.
        let left = keep (λ s. not (leb_text s.expires_at now)) t.sessions in
        (length t.sessions - length left, record t { sessions = left }))
