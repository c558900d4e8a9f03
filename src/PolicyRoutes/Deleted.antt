-- ===== src/PolicyRoutes/Deleted.antt =====
-- A policy that was deleted, in the verdict service.
use deko.Prelude.{
  ◌≡◌, ◌≢◌, refl, sym, ◌∙◌, arith, String, Bool, true, false, List, [], ◌∷◌, map, keep, All,
  All-order_by, Bool-cases, inl, inr, string_eq,
}
use mathlib.Core.Path.{subst}
use deko.Errors.{ok, err-ne-ok}
use deko.Platform.{Platform}
use deko.Audit.Steps.{Keeps-record_entry}
use deko.World.{World, PolicyRow, raise, statement, gets, ◌>>=◌}
use deko.World.Steps.{IsStep, Keeps-bind, Keeps-pure}
use deko.VerdictService.Policies.{is_in_force, active_policies, older}
use deko.PolicyRoutes.{changed, record_deleted, delete_policy}

module _ {N : Type 0} (id : String) where
  -- No active policy has the id.
  abbrev IsRetired : List (PolicyRow N) → Type 0
  IsRetired rows = All (λ r. r.policy.id ≡ id → r.policy.active ≡ false) rows

  changed-IsRetired :
      (now : String) (rows : List (PolicyRow N))
      → IsRetired (changed id (λ p. record p { active = false; updated_at = now }) rows)
  changed-IsRetired now [] = tt
  changed-IsRetired now (r ∷ rows) = (ground arith, changed-IsRetired now rows)

  in_force-IsRetired :
      (now : String) (rows : List (PolicyRow N))
      → IsRetired rows
      → All (λ p. p.id ≢ id) (map (λ r. r.policy) (keep (is_in_force now) rows))
  in_force-IsRetired now [] h = tt
  in_force-IsRetired now (r ∷ rows) (here, there) = elim (Bool-cases (is_in_force now r)) [
    | inl force ↦ rw force (
      (λ same. unfold is_in_force in absurd (ground (arith, here same, force))),
      in_force-IsRetired now rows there,
    )
    | inr not_in_force ↦ rw not_in_force (in_force-IsRetired now rows there)
  ]

  active_policies-IsRetired :
      (now : String) (w : World N)
      → IsRetired w.tables.policies
      → All (λ p. p.id ≢ id) (active_policies now w.tables)
  unfolding active_policies
  active_policies-IsRetired now w h =
      All-order_by _ older _ (in_force-IsRetired now w.tables.policies h)

abbrev SamePolicies : {N : Type 0} → World N → World N → Type 0
SamePolicies u v = v.tables.policies ≡ u.tables.policies

SamePolicies-IsStep : {N : Type 0} → IsStep (SamePolicies {N = N})
SamePolicies-IsStep = record {
  same = λ w fs n. refl;
  trans = λ u v w h k. k ∙ h;
  back = λ u v h. refl;
}

module _ (P : Platform) (id : String) where
  recorded-IsRetired :
      (found : Bool) (v : World P.Number)
      → IsRetired id v.tables.policies
      → IsRetired id (record_deleted P id found v).1.tables.policies
  unfolding record_deleted raise
  recorded-IsRetired false v h = h
  recorded-IsRetired true v h =
      let kept =
        (Keeps-bind SamePolicies SamePolicies-IsStep _ _
            (Keeps-record_entry P SamePolicies SamePolicies-IsStep (λ w i a t d c. refl) _ _ _)
            (λ done. Keeps-pure SamePolicies SamePolicies-IsStep _)).at
          v in
      subst (IsRetired id) (sym kept) h

  deleted-IsRetired :
      (fs : List Bool) (w : World P.Number) (x : String)
      → (delete_policy P id (record w { faults = fs })).0 ≡ ok x
      → IsRetired id (delete_policy P id (record w { faults = fs })).1.tables.policies
  unfolding delete_policy gets statement ◌>>=◌
  deleted-IsRetired (true ∷ fs) w x e = absurd (err-ne-ok e)
  deleted-IsRetired [] w x e = recorded-IsRetired _ _ (changed-IsRetired id _ w.tables.policies)
  deleted-IsRetired (false ∷ fs) w x e =
      recorded-IsRetired _ _ (changed-IsRetired id _ w.tables.policies)

-- Once the deletion of a policy has succeeded, no policy of that id is among those that the verdict
-- service evaluates, at any time.
pub active_policies-delete_policy :
    (P : Platform) (id : String) (w : World P.Number) (x now : String)
    → (delete_policy P id w).0 ≡ ok x
    → All (λ p. p.id ≢ id) (active_policies now (delete_policy P id w).1.tables)
active_policies-delete_policy P id w x now e =
    active_policies-IsRetired id now (delete_policy P id w).1
      (deleted-IsRetired P id w.faults w x e)
