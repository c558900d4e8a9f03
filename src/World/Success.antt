-- ===== src/World/Success.antt =====
-- Services that succeed when no statement fails: rules, one for each way to build a service.
use deko.Prelude.{◌≡◌, refl, sym, ◌∙◌, Bool, true, false, Option, none, some, [], ap, if◌then◌else◌}
use mathlib.Core.Path.{subst}
use deko.Errors.{Result, ok, err, err-ne-ok}
use deko.World.{
  Tables, World, M, pure, gets, statement, select, attempt, fails, later, for_some, or_try, begin,
  commit, transaction, ◌>>=◌, continue, execute, update, draw,
}

-- A result that is a value, in a world in which no statement is going to fail.
abbrev pub Succeeded : {N A : Type 0} → Result A × World N → Type 0
Succeeded {A = A} (r, w) = ((a : A) × (r ≡ ok a)) × (w.faults ≡ [])

-- If no statement fails, `m` has a value.
pub record Succeeds {N A : Type 0} (m : M N A) : Type 0 where
  pub at : (w : World N) → w.faults ≡ [] → Succeeded (m w)

module _ {N : Type 0} where
  module _ {A : Type 0} where
    pub Succeeds-pure : (a : A) → Succeeds {N = N} (pure a)
    unfolding pure
    Succeeds-pure a = record { at = λ w e. ((a, refl), e) }

    pub Succeeds-gets : (f : World N → A) → Succeeds (gets f)
    unfolding gets
    Succeeds-gets f = record { at = λ w e. ((f w, refl), e) }

    pub Succeeds-statement : (f : Tables N → A × Tables N) → Succeeds (statement f)
    unfolding statement
    Succeeds-statement f = record { at = λ w e. rw e ((_, refl), refl) }

    pub Succeeds-select : (f : Tables N → A) → Succeeds (select f)
    unfolding select
    Succeeds-select f = Succeeds-statement (λ t. (f t, t))

    pub Succeeds-attempt : (m : M N A) → Succeeds m → Succeeds (attempt m)
    unfolding attempt
    Succeeds-attempt m k = record { at = λ w e. ((_, refl), (k.at w e).1) }

    commit_ok :
        (u : World N) (r : Result A) (w : World N) → Succeeded (r, w) → Succeeded (commit u r w)
    commit_ok u (err e) w ((a, h), faults) = absurd (err-ne-ok h)
    commit_ok u (ok a) w (h, faults) = rw faults ((a, refl), refl)

    pub Succeeds-transaction : (m : M N A) → Succeeds m → Succeeds (transaction m)
    unfolding transaction
    Succeeds-transaction m k = record {
      at = λ w e.
          let w' = record w { faults = later w.faults } in
          subst (λ b. Succeeded (begin b m w')) (sym (ap fails e))
            (commit_ok w' (m w').0 (m w').1 (k.at w' (ap later e)));
    }

    pub Succeeds-if :
        (b : Bool) (m n : M N A) → Succeeds m → Succeeds n → Succeeds (if b then m else n)
    Succeeds-if true m n km kn = km
    Succeeds-if false m n km kn = kn

    pub Succeeds-or_try : (o : Option A) (m : M N (Option A)) → Succeeds m → Succeeds (or_try o m)
    unfolding or_try pure
    Succeeds-or_try none m k = k
    Succeeds-or_try (some a) m k = record { at = λ w e. ((some a, refl), e) }

  module _ {A B : Type 0} where
    continue_ok :
        (f : A → M N B) (r : Result A) (w : World N)
        → Succeeded (r, w)
        → ((a : A) → Succeeds (f a))
        → Succeeded (continue r f w)
    continue_ok f (err e) w ((a, h), faults) k = absurd (err-ne-ok h)
    continue_ok f (ok a) w (h, faults) k = (k a).at w faults

    pub Succeeds-bind :
        (m : M N A) (f : A → M N B) → Succeeds m → ((a : A) → Succeeds (f a)) → Succeeds (m >>= f)
    unfolding ◌>>=◌
    Succeeds-bind m f km kf = record { at = λ w e. continue_ok f (m w).0 (m w).1 (km.at w e) kf }

    pub Succeeds-for_some :
        (o : Option A) (b : B) (f : A → M N B)
        → ((a : A) → Succeeds (f a))
        → Succeeds (for_some o b f)
    unfolding for_some
    Succeeds-for_some none b f k = Succeeds-pure b
    Succeeds-for_some (some a) b f k = k a

  pub Succeeds-execute : (f : Tables N → Tables N) → Succeeds (execute f)
  unfolding execute
  Succeeds-execute f = Succeeds-statement (λ t. (tt, f t))

  -- An update that leaves the faults.
  pub Succeeds-update :
      (f : World N → World N) → ((w : World N) → (f w).faults ≡ w.faults) → Succeeds (update f)
  unfolding update
  Succeeds-update f h = record { at = λ w e. ((tt, refl), h w ∙ e) }

  pub Succeeds-draw : Succeeds {N = N} draw
  unfolding draw
  Succeeds-draw = record { at = λ w e. ((_, refl), e) }

pub ruleset success_rules = (
  Succeeds-pure, Succeeds-gets, Succeeds-select, Succeeds-attempt, Succeeds-transaction,
  Succeeds-if, Succeeds-or_try, Succeeds-bind, Succeeds-for_some, Succeeds-execute, Succeeds-draw,
)
