-- ===== src/Admin/Login.antt =====
-- routes/admin.rs: login, logout and the check of an administrator, with the middleware of
-- routes/mod.rs. A header is given by its text, none if it is missing or no text; `expected` is the
-- variable DEKO_ADMIN_PASSWORD. An `Instant` is its number of nanoseconds.
use Prim.Native.String.{count}
use deko.Prelude.{
  ℕ, ◌-◌, ◌*◌, ltb, leb, String, ◌<>◌, Bool, true, false, not, ◌||◌, Option, none, some, List, [],
  ◌∷◌, ◌++◌, keep, length, head_of, unwrap_or, ◌==◌, string_eq, nat_eq, if◌then◌else◌,
  ◌>>=◌ as ◌>>=?◌,
}
use deko.Prelude.Parse.{split}
use deko.Prelude.Text.{trim, strip_prefix, show_nat}
use deko.Errors.{forbidden, unauthorized, rate_limited}
use deko.Platform.{Platform}
use deko.Audit.Chain.{verify_chain, ChainReport}
use deko.World.{M, pure, raise, select, attempt, ◌>>=◌}
use deko.Webhook.{fold_equal}
use deko.Session.{session_ttl, create, validate, delete}

-- Equal numbers of characters stand for equal `len`, as in the check of a signature.
unfoldable pub constant_time_eq : String → String → Bool
unfolding fold_equal
constant_time_eq a b = if not (count a == count b) then false else fold_equal true a b

pub record LoginThrottle : Type 0 where
  pub max_attempts : ℕ
  pub window : ℕ

abbrev pub login_throttle : LoginThrottle
login_throttle = record { max_attempts = 10; window = 60 * 1000000000 }

-- The map behind the lock; no entry is an empty one.
abbrev pub Attempts : Type 0
Attempts = String → List ℕ

abbrev pub put : String → List ℕ → Attempts → Attempts
put ip times map = λ j. if ip == j then times else map j

abbrev pub recent : LoginThrottle → ℕ → List ℕ → List ℕ
recent throttle now times = keep (λ t. ltb (now - t) throttle.window) times

unfoldable pub allow : LoginThrottle → ℕ → String → Attempts → Bool × Attempts
allow throttle now ip map =
    let times = recent throttle now (map ip) in
    if leb throttle.max_attempts (length times)
    then (false, put ip times map)
    else (true, put ip (times ++ (now ∷ [])) map)

abbrev non_empty : String → Option String
non_empty s = if s == "" then none else some s

unfoldable pub client_ip : Option String → String
unfolding split trim
client_ip forwarded =
    unwrap_or (forwarded >>=? (λ v. head_of (split b',' v) >>=? (λ s. non_empty (trim s)))) "local"

abbrev token_or : Option String → Option String → Option String
token_or none next = next
token_or (some value) next = if value == "" then next else some value

abbrev pub first_token : List String → Option String
first_token [] = none
first_token (part ∷ parts) = token_or (strip_prefix "deko_session=" (trim part)) (first_token parts)

unfoldable pub extract_session_token : Option String → Option String
unfolding split strip_prefix trim
extract_session_token cookie = cookie >>=? (λ header. first_token (split b';' header))

module _ (P : Platform) (expected : Option String) where
  open P use {Number}

  abbrev denied : {A : Type 0} → M Number A
  denied = raise (forbidden "Admin access required")

  -- The password header, where a password is set.
  abbrev pub by_password : String → Option String → M Number String
  by_password password none = denied
  by_password password (some provided) =
      if (password == "") || not (constant_time_eq provided password)
      then denied
      else pure "password"

  abbrev pub or_password : Option String → Option String → M Number String
  or_password provided (some identity) = pure identity
  or_password provided none = by_password (unwrap_or expected "") provided

  abbrev pub by_session : Option String → M Number (Option String)
  by_session none = pure none
  by_session (some token) = validate P token

  unfoldable pub verify_admin : Option String → Option String → M Number String
  unfolding constant_time_eq extract_session_token validate
  verify_admin cookie provided = by_session (extract_session_token cookie) >>= or_password provided

  -- The identity that the middleware hands on, none for its answer 403.
  unfoldable pub admin_auth_middleware : Option String → Option String → M Number (Option String)
  unfolding verify_admin
  admin_auth_middleware cookie provided = attempt (verify_admin cookie provided)

  abbrev drop_token : Option String → M Number (Unit {0})
  drop_token none = pure tt
  drop_token (some token) = attempt (delete P token) >>= (λ done. pure tt)

  -- The answer clears the cookie.
  unfoldable pub admin_logout : Option String → M Number (Unit {0})
  unfolding extract_session_token delete
  admin_logout cookie = drop_token (extract_session_token cookie)

  abbrev pub cookie_of : String → String
  cookie_of token =
      "deko_session="
      <> (token <> ("; Path=/; HttpOnly; SameSite=Strict; Max-Age=" <> show_nat session_ttl))

  -- The login after the throttle. The answer is the token; its cookie is `cookie_of`.
  unfoldable pub log_in : Bool → String → M Number String
  unfolding constant_time_eq create
  log_in false password = raise rate_limited
  log_in true password =
      let required = unwrap_or expected "" in
      if (required == "") || not (constant_time_eq password required)
      then raise (unauthorized "Invalid password")
      else create P "password"

  unfoldable pub admin_login : ℕ → Option String → String → Attempts → M Number String × Attempts
  unfolding allow client_ip log_in
  admin_login now forwarded password attempts =
      let (allowed, next) = allow login_throttle now (client_ip forwarded) attempts in
      (log_in allowed password, next)

  -- verify_audit_chain, whose own check is skipped where no password is set.
  unfoldable pub verify_audit_chain : Option String → M Number ChainReport
  unfolding verify_chain
  verify_audit_chain provided =
      let required = unwrap_or expected "" in
      if (required == "") || (unwrap_or provided "" == required)
      then select (λ t. verify_chain P t.audit_log)
      else denied
