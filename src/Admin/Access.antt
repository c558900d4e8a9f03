-- ===== src/Admin/Access.antt =====
-- Who passes as an administrator.
use Prim.Native.String.{count}
use deko.Prelude.{
  ◌+◌, ◌≡◌, ◌≢◌, ◌↔◌, ◌⊎◌, inl, inr, refl, sym, ap, ◌∙◌, arith, String, Bool, true, false, not,
  ◌||◌, Option, none, some, List, [], ◌∷◌, ◌++◌, find, find-snoc, unwrap_or, Bool-cases, nat_eq,
  ◌==◌, string_eq, ==_sound, ==_refl,
}
use mathlib.Core.Path.{subst}
use deko.Prelude.Int.{pos}
use deko.Prelude.Text.{leb_text}
use deko.Errors.{Result, ok, err, ok-injective, err-ne-ok}
use deko.Platform.{Platform}
use deko.Webhook.Signature.{fold_equal_refl, fold_equal_sound}
use deko.World.{
  World, Session, pure, raise, select, statement, execute, gets, draw, for_some, ◌>>=◌, continue,
}
use deko.Session.{
  session_ttl, hash_token, find_session, check_session, validate, create, random_token,
}
use deko.Session.Validity.{IsLive, validate-IsLive}
use deko.Admin.Login.{
  constant_time_eq, extract_session_token, by_password, or_password, by_session, verify_admin,
  log_in,
}

-- The comparison, which does not stop at the first difference, decides equality.
pub constant_time_eq_iff : (a b : String) → (constant_time_eq a b ≡ true) ↔ (a ≡ b)
unfolding constant_time_eq
constant_time_eq_iff a b = (
  (λ h. elim (Bool-cases (count a == count b)) [
    | inl same ↦ fold_equal_sound a b (==_sound (count a) (count b) same) (rw same at h)
    | inr differ ↦ absurd (ground (arith, differ, h))
  ]),
  (λ e. rw e (rw (==_refl (count b)) (fold_equal_refl b))),
)

refused_by : (a b : Bool) → a || not b ≡ false → (a ≡ false) × (b ≡ true)
refused_by true b h = absurd (ground (arith, h))
refused_by false true h = (refl, refl)
refused_by false false h = absurd (ground (arith, h))

set_password : (s : String) → (s == "") ≡ false → s ≢ ""
set_password s h e = absurd (ground (arith, h, e))

module _ (P : Platform) (expected cookie provided : Option String) (w : World P.Number) where
  -- The session of the cookie is live, or the header holds the password, which is set.
  abbrev pub IsAdmin : String → Type 0
  IsAdmin identity =
      ((token : String) × (extract_session_token cookie ≡ some token) × IsLive P w token identity)
      ⊎ ((password : String) × (expected ≡ some password)
          × (password ≢ "")
          × (provided ≡ some password)
          × (identity ≡ "password"))

  password_given :
      (e given : Option String) (v : World P.Number) (identity : String)
      → expected ≡ e
      → provided ≡ given
      → (by_password P expected (unwrap_or e "") given v).0 ≡ ok identity
      → IsAdmin identity
  unfolding raise pure string_eq
  password_given e none v identity x y h = absurd (err-ne-ok h)
  password_given none (some text) v identity x y h = absurd (err-ne-ok h)
  password_given (some password) (some text) v identity x y h =
      elim (Bool-cases ((password == "") || not (constant_time_eq text password))) [
        | inl refused ↦ absurd (err-ne-ok (rw refused at h))
        | inr passed ↦
            let (set, equal) =
              refused_by (password == "") (constant_time_eq text password) passed in
            inr (
              password,
              x,
              set_password password set,
              y ∙ ap some ((constant_time_eq_iff text password).0 equal),
              sym (ok-injective (rw passed at h)),
            )
      ]

  session_given :
      (r : Result (Option String)) (v : World P.Number) (identity : String)
      → ((id : String) → r ≡ ok (some id) → IsAdmin id)
      → (continue r (or_password P expected provided) v).0 ≡ ok identity
      → IsAdmin identity
  unfolding pure
  session_given (err e) v identity k h = absurd (err-ne-ok h)
  session_given (ok none) v identity k h = password_given expected provided v identity refl refl h
  session_given (ok (some id)) v identity k h = subst IsAdmin (ok-injective h) (k id refl)

  token_given :
      (token : Option String) (identity : String)
      → extract_session_token cookie ≡ token
      → ((by_session P expected token >>= or_password P expected provided) w).0 ≡ ok identity
      → IsAdmin identity
  unfolding pure ◌>>=◌
  token_given none identity same h = password_given expected provided w identity refl refl h
  token_given (some token) identity same h =
      session_given (validate P token w).0 (validate P token w).1 identity
        (λ id e. inl (token, same, validate-IsLive P w token id e)) h

-- Whatever statements fail, a request passes as an administrator only if its cookie holds a token
-- with a stored session that has not expired, whose id is then the identity, or its header holds
-- the password, which is set and not empty.
pub verify_admin-IsAdmin :
    (P : Platform) (expected cookie provided : Option String) (w : World P.Number)
    (identity : String)
    → (verify_admin P expected cookie provided w).0 ≡ ok identity
    → IsAdmin P expected cookie provided w identity
unfolding verify_admin
verify_admin-IsAdmin P expected cookie provided w identity e =
    token_given P expected cookie provided w (extract_session_token cookie) identity refl e

module _ (P : Platform) (expected : Option String) (w : World P.Number) where
  -- The session of the token is the only new one.
  abbrev Opens : String → World P.Number → Type 0
  Opens token v =
      (s : Session) × (v.tables.sessions ≡ w.tables.sessions ++ (s ∷ []))
      × (s.id ≡ hash_token P token)
      × (s.expires_at ≡ P.sqlite_time (pos (w.clock + session_ttl)))
      × (v.clock ≡ w.clock)

  created_with :
      (fs : List Bool) (token : String)
      → (create P "password" (record w { faults = fs })).0 ≡ ok token
      → Opens token (create P "password" (record w { faults = fs })).1
  unfolding create random_token draw gets pure execute statement ◌>>=◌
  created_with (true ∷ fs) token e = absurd (err-ne-ok e)
  created_with [] token e = (_, refl, ap (hash_token P) (ok-injective e), refl, refl)
  created_with (false ∷ fs) token e = (_, refl, ap (hash_token P) (ok-injective e), refl, refl)

  logged_in :
      (password token : String)
      → (log_in P expected true password w).0 ≡ ok token
      → Opens token (log_in P expected true password w).1
  unfolding log_in raise
  logged_in password token e =
      let required = unwrap_or expected "" in
      elim (Bool-cases ((required == "") || not (constant_time_eq password required))) [
        | inl refused ↦ absurd (err-ne-ok (rw refused at e))
        | inr passed ↦ rw passed (created_with w.faults token (rw passed at e))
      ]

  live :
      (v : World P.Number) (token : String)
      → Opens token v
      → find_session P (hash_token P token) w.tables ≡ none
      → leb_text (P.sqlite_time (pos (w.clock + session_ttl))) (P.sqlite_time (pos w.clock)) ≡ false
      → (validate P token (record v { faults = [] })).0 ≡ ok (some (hash_token P token))
  unfolding validate for_some check_session select statement gets pure ◌>>=◌
  live v token (s, sessions, id, expires, clock) fresh later =
      let found : find_session P (hash_token P token) v.tables ≡ some s =
        ap (find (λ (x : Session). x.id == hash_token P token)) sessions
        ∙ find-snoc _ w.tables.sessions s fresh (rw id (==_refl (hash_token P token))) in
      rw (found, expires, clock, later) (ap (λ x. ok (some x)) id)

  session_of :
      (v : World P.Number) (token : String) (cookie : Option String) (provided : Option String)
      (id : String)
      → extract_session_token cookie ≡ some token
      → (validate P token v).0 ≡ ok (some id)
      → (verify_admin P expected cookie provided v).0 ≡ ok id
  unfolding verify_admin pure ◌>>=◌
  session_of v token cookie provided id same valid = rw (same, valid) refl

-- After a login, a cookie from which its token is read passes as an administrator at once, as long
-- as no statement of the request fails. The token is new, and the time format orders the expiry
-- after the time of the login.
pub verify_admin-log_in :
    (P : Platform) (expected cookie provided : Option String) (password token : String)
    (w : World P.Number)
    → (log_in P expected true password w).0 ≡ ok token
    → find_session P (hash_token P token) w.tables ≡ none
    → leb_text (P.sqlite_time (pos (w.clock + session_ttl))) (P.sqlite_time (pos w.clock)) ≡ false
    → extract_session_token cookie ≡ some token
    → (verify_admin P expected cookie provided
        (record (log_in P expected true password w).1 { faults = [] })).0
      ≡ ok (hash_token P token)
verify_admin-log_in P expected cookie provided password token w e fresh later same =
    let v = (log_in P expected true password w).1 in
    session_of P expected w (record v { faults = [] }) token cookie provided _ same
      (live P expected w v token (logged_in P expected w password token e) fresh later)
