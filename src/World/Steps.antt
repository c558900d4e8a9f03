-- ===== src/World/Steps.antt =====
-- What a service leaves of a world: rules for two-place relations that are reflexive and transitive,
-- one rule for each way to build a service.
use deko.Prelude.{ℕ, ◌+◌, ◌≡◌, refl, Bool, true, false, Option, none, some, List, if◌then◌else◌}
use deko.Errors.{AppError, Result, ok, err}
use deko.World.{
  Tables, World, M, pure, raise, gets, statement, select, attempt, fails, later, resolve, settle,
  for_some, or_try, begin, transaction, commit, ◌>>=◌, continue, execute, update, draw, require,
}

-- Whatever the faults, `m` takes a world to one that is related to it, with a result or an error.
pub record Keeps {N A : Type 0} (R : World N → World N → Type 0) (m : M N A) : Type 0 where
  pub at : (w : World N) → R w (m w).1

-- Every value of `m` has the property.
pub record Returns {N A : Type 0} (Q : A → Type 0) (m : M N A) : Type 0 where
  pub value : (w : World N) (a : A) → (m w).0 ≡ ok a → Q a

-- A relation that does not read the faults and the drawn ids.
pub record IsStep {N : Type 0} (R : World N → World N → Type 0) : Type 0 where
  pub same : (w : World N) (fs : List Bool) (n : ℕ) → R w (record w { faults = fs; uuids = n })
  pub trans : (u v w : World N) → R u v → R v w → R u w
  -- Rolling back to the tables of the beginning.
  pub back : (u v : World N) → R u v → R u (record v { tables = u.tables })

module _ {N : Type 0} (R : World N → World N → Type 0) (S : IsStep R) where
  module _ {A : Type 0} where
    pub Keeps-pure : (a : A) → Keeps R (pure a)
    unfolding pure
    Keeps-pure a = record { at = λ w. S.same w w.faults w.uuids }

    pub Keeps-raise : (e : AppError) → Keeps R (raise {A = A} e)
    unfolding raise
    Keeps-raise e = record { at = λ w. S.same w w.faults w.uuids }

    pub Keeps-gets : (f : World N → A) → Keeps R (gets f)
    unfolding gets
    Keeps-gets f = record { at = λ w. S.same w w.faults w.uuids }

    resolve_at :
        (b : Bool) (r : A × Tables N) (v w : World N)
        → R v w
        → R v (record w { tables = r.1 })
        → R v (resolve b r w).1
    resolve_at true r v w h k = h
    resolve_at false r v w h k = k

    pub Keeps-statement :
        (f : Tables N → A × Tables N)
        → ((w : World N) → R w (record w { tables = (f w.tables).1 }))
        → Keeps R (statement f)
    unfolding statement
    Keeps-statement f h = record {
      at = λ w.
          let w' = record w { faults = later w.faults } in
          let s = S.same w (later w.faults) w.uuids in
          resolve_at (fails w.faults) (f w.tables) w w' s (S.trans w w' _ s (h w'));
    }

    pub Keeps-select : (f : Tables N → A) → Keeps R (select f)
    unfolding select
    Keeps-select f = Keeps-statement (λ t. (f t, t)) (λ w. S.same w w.faults w.uuids)

    pub Keeps-attempt : (m : M N A) → Keeps R m → Keeps R (attempt m)
    unfolding attempt
    Keeps-attempt m k = record { at = k.at }

    settle_at : (b : Bool) (u : World N) (a : A) (w : World N) → R u w → R u (settle b u a w).1
    settle_at true u a w h = S.back u w h
    settle_at false u a w h = h

    commit_at : (u : World N) (r : Result A) (w : World N) → R u w → R u (commit u r w).1
    commit_at u (err e) w h = S.back u w h
    commit_at u (ok a) w h =
        let w' = record w { faults = later w.faults } in
        settle_at (fails w.faults) u a w' (S.trans u w w' h (S.same w (later w.faults) w.uuids))

    begin_at : (b : Bool) (m : M N A) (w : World N) → Keeps R m → R w (begin b m w).1
    begin_at true m w k = S.same w w.faults w.uuids
    begin_at false m w k = commit_at w (m w).0 (m w).1 (k.at w)

    pub Keeps-transaction : (m : M N A) → Keeps R m → Keeps R (transaction m)
    unfolding transaction
    Keeps-transaction m k = record {
      at = λ w.
          let w' = record w { faults = later w.faults } in
          S.trans w w' _ (S.same w (later w.faults) w.uuids) (begin_at (fails w.faults) m w' k);
    }

    pub Keeps-if :
        (b : Bool) (m n : M N A)
        → (b ≡ true → Keeps R m)
        → (b ≡ false → Keeps R n)
        → Keeps R (if b then m else n)
    Keeps-if true m n km kn = km refl
    Keeps-if false m n km kn = kn refl

    pub Keeps-require : (e : AppError) (o : Option A) → Keeps R (require e o)
    unfolding require
    Keeps-require e none = Keeps-raise e
    Keeps-require e (some a) = Keeps-pure a

    pub Keeps-or_try : (o : Option A) (m : M N (Option A)) → Keeps R m → Keeps R (or_try o m)
    unfolding or_try pure
    Keeps-or_try none m k = k
    Keeps-or_try (some a) m k = record { at = λ w. S.same w w.faults w.uuids }

  module _ {A B : Type 0} where
    continue_at :
        (f : A → M N B) (r : Result A) (u w : World N)
        → R u w
        → ((a : A) → Keeps R (f a))
        → R u (continue r f w).1
    continue_at f (err e) u w h k = h
    continue_at f (ok a) u w h k = S.trans u w _ h ((k a).at w)

    continue_returns :
        (f : A → M N B) (Q : A → Type 0) (r : Result A) (u w : World N)
        → R u w
        → ((a : A) → r ≡ ok a → Q a)
        → ((a : A) → Q a → Keeps R (f a))
        → R u (continue r f w).1
    continue_returns f Q (err e) u w h q k = h
    continue_returns f Q (ok a) u w h q k = S.trans u w _ h ((k a (q a refl)).at w)

    pub Keeps-bind :
        (m : M N A) (f : A → M N B) → Keeps R m → ((a : A) → Keeps R (f a)) → Keeps R (m >>= f)
    unfolding ◌>>=◌
    Keeps-bind m f km kf = record { at = λ w. continue_at f (m w).0 w (m w).1 (km.at w) kf }

    pub Keeps-for_some :
        (o : Option A) (b : B) (f : A → M N B)
        → ((a : A) → Keeps R (f a))
        → Keeps R (for_some o b f)
    unfolding for_some
    Keeps-for_some none b f k = Keeps-pure b
    Keeps-for_some (some a) b f k = k a

  -- The value of `m` is used with what is known of it.
  pub Keeps-bind-Returns :
      {A B : Type 0} (m : M N A) (f : A → M N B) (Q : A → Type 0)
      → Keeps R m
      → Returns Q m
      → ((a : A) → Q a → Keeps R (f a))
      → Keeps R (m >>= f)
  unfolding ◌>>=◌
  Keeps-bind-Returns m f Q km q kf = record {
    at = λ w. continue_returns f Q (m w).0 w (m w).1 (km.at w) (q.value w) kf;
  }

  pub Keeps-execute :
      (f : Tables N → Tables N)
      → ((w : World N) → R w (record w { tables = f w.tables }))
      → Keeps R (execute f)
  unfolding execute
  Keeps-execute f h = Keeps-statement (λ t. (tt, f t)) h

  pub Keeps-update : (f : World N → World N) → ((w : World N) → R w (f w)) → Keeps R (update f)
  unfolding update
  Keeps-update f h = record { at = h }

  pub Keeps-draw : Keeps R draw
  unfolding draw
  Keeps-draw = record { at = λ w. S.same w w.faults (w.uuids + 1) }

pub ruleset keeps_rules = (
  Keeps-pure, Keeps-raise, Keeps-gets, Keeps-select, Keeps-attempt, Keeps-transaction, Keeps-if,
  Keeps-require, Keeps-bind, Keeps-for_some, Keeps-or_try, Keeps-draw,
)
