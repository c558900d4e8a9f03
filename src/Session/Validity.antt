-- ===== src/Session/Validity.antt =====
-- Which tokens are accepted, before and after a logout and a purge.
use deko.Prelude.{
  ◌-◌, ◌+◌, ◌≤◌, length, ℕ, ◌≡◌, ◌≢◌, refl, sym, ap, ◌∙◌, String, Bool, true, false, not, Option,
  none, some, List, [], ◌∷◌, keep, find, All, arith, ◌==◌, string_eq, Bool-cases, inl, inr,
}
use mathlib.Core.Option.{some-injective, none-ne-some}
use deko.Prelude.Int.{pos}
use deko.Prelude.Text.{leb_text}
use deko.Errors.{Result, ok, ok-injective, err-ne-ok}
use deko.Platform.{Platform}
use deko.World.{World, Session, fails, pure, select, execute, statement, gets, for_some, ◌>>=◌}
use deko.Session.{
  hash_token, check_session, find_session, validate, delete, purge_expired, drop_session,
}

module _ (P : Platform) where
  -- The token has a session that has not expired at the time of the world.
  abbrev pub IsLive : World P.Number → String → String → Type 0
  IsLive w token id =
      (s : Session) × (find_session P (hash_token P token) w.tables ≡ some s)
      × (leb_text s.expires_at (P.sqlite_time (pos w.clock)) ≡ false)
      × (id ≡ s.id)

  checked :
      (o : Option Session) (w : World P.Number) (id : String)
      → ((for_some o none (check_session P)) w).0 ≡ ok (some id)
      → (s : Session) × (o ≡ some s)
        × (leb_text s.expires_at (P.sqlite_time (pos w.clock)) ≡ false)
        × (id ≡ s.id)
  unfolding for_some check_session gets pure execute statement ◌>>=◌
  checked none w id e = absurd (none-ne-some id (ok-injective e))
  checked (some s) w id e =
      elim (Bool-cases (leb_text s.expires_at (P.sqlite_time (pos w.clock)))) [
        | inr live ↦ (s, refl, live, sym (some-injective _ _ (ok-injective (rw live at e))))
        | inl expired ↦ elim (Bool-cases (fails w.faults)) [
          | inl fault ↦ absurd (err-ne-ok (rw (expired, fault) at e))
          | inr fine ↦ absurd (none-ne-some id (ok-injective (rw (expired, fine) at e)))
        ]
      ]

  validate_with :
      (w : World P.Number) (fs : List Bool) (token id : String)
      → (validate P token (record w { faults = fs })).0 ≡ ok (some id)
      → IsLive w token id
  unfolding validate select statement ◌>>=◌
  validate_with w (true ∷ fs) token id e = absurd (err-ne-ok e)
  validate_with w [] token id e =
      checked (find_session P (hash_token P token) w.tables) (record w { faults = [] }) id e
  validate_with w (false ∷ fs) token id e =
      checked (find_session P (hash_token P token) w.tables) (record w { faults = fs }) id e

  find-drop_session :
      (h : String) (ss : List Session)
      → find (λ s. s.id == h) (keep (λ s. not (s.id == h)) ss) ≡ none
  find-drop_session h [] = refl
  find-drop_session h (s ∷ ss) = ground (arith, find-drop_session h ss)

  -- The table after a deletion that did not fail.
  deleted :
      (w : World P.Number) (fs : List Bool) (token : String)
      → (delete P token (record w { faults = fs })).0 ≡ ok tt
      → (delete P token (record w { faults = fs })).1.tables
        ≡ drop_session (hash_token P token) w.tables
  unfolding delete execute statement
  deleted w (true ∷ fs) token e = absurd (err-ne-ok e)
  deleted w [] token e = refl
  deleted w (false ∷ fs) token e = refl

  length-keep : (p : Session → Bool) (ss : List Session) → length (keep p ss) ≤ length ss
  length-keep p [] = omega arith
  length-keep p (s ∷ ss) = ground (arith, length-keep p ss)

  taken : (a b n : ℕ) → a - b ≡ n → b ≤ a → n + b ≡ a
  taken a b n e h = omega arith

  All-keep :
      (now : String) (ss : List Session)
      → All
          (λ s. leb_text s.expires_at now ≡ false)
          (keep (λ s. not (leb_text s.expires_at now)) ss)
  All-keep now [] = tt
  All-keep now (s ∷ ss) = elim (Bool-cases (leb_text s.expires_at now)) [
    | inl expired ↦ rw expired (All-keep now ss)
    | inr live ↦ rw live (live, All-keep now ss)
  ]

  abbrev pub Purged : World P.Number → Result ℕ × World P.Number → Type 0
  Purged w (r, v) =
      (n : ℕ)
      → r ≡ ok n
      → All (λ s. leb_text s.expires_at (P.sqlite_time (pos w.clock)) ≡ false) v.tables.sessions
        × (n + length v.tables.sessions ≡ length w.tables.sessions)

  purged :
      (w : World P.Number) (fs : List Bool) → Purged w (purge_expired P (record w { faults = fs }))
  unfolding purge_expired gets statement ◌>>=◌
  purged w (true ∷ fs) n e = absurd (err-ne-ok e)
  purged w [] n e =
      (All-keep _ w.tables.sessions, taken _ _ n (ok-injective e) (length-keep _ w.tables.sessions))
  purged w (false ∷ fs) n e =
      (All-keep _ w.tables.sessions, taken _ _ n (ok-injective e) (length-keep _ w.tables.sessions))

-- Whatever statements fail, a token is accepted only if a session with its hash is stored and has
-- not expired, and the answer is the id of that session.
pub validate-IsLive :
    (P : Platform) (w : World P.Number) (token id : String)
    → (validate P token w).0 ≡ ok (some id)
    → IsLive P w token id
validate-IsLive P w token id e = validate_with P w w.faults token id e

-- After a logout that did not fail the token is not accepted, whatever statements fail.
pub validate-delete :
    (P : Platform) (w : World P.Number) (token id : String)
    → (delete P token w).0 ≡ ok tt
    → (validate P token (delete P token w).1).0 ≢ ok (some id)
validate-delete P w token id d e =
    let (s, found, live, same) = validate-IsLive P (delete P token w).1 token id e in
    none-ne-some s (
      sym (find-drop_session P (hash_token P token) w.tables.sessions)
      ∙ (ap (find_session P (hash_token P token)) (sym (deleted P w w.faults token d)) ∙ found))

-- A purge that did not fail leaves only sessions that have not expired, and returns the number of
-- those it removed.
pub purge_expired_lem : (P : Platform) (w : World P.Number) → Purged P w (purge_expired P w)
purge_expired_lem P w = purged P w w.faults
