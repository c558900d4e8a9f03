-- ===== src/PolicyEngine/Severity.antt =====
-- What a merged outcome keeps of its parts: the denial of any of them, and the greatest risk.
use deko.Prelude.{
  ◌≡◌, ◌≤◌, true, Option, some, List, [], ◌∷◌, map, any, arith, All, leb, if◌then◌else◌, ◌∙◌, sym,
  Option-cases, inl, inr,
}
use mathlib.Core.Path.{subst}
use mathlib.Core.Option.{some-injective, none-ne-some}
use deko.Prelude.Text.{join}
use deko.Json.{text, arr, obj, Items, Fields, to_list, get_field}
use deko.Models.{RiskLevel}
use deko.Platform.{Platform}
use deko.PolicyEngine.Rules.{RuleInput, Now, RuleOutcome}
use deko.PolicyEngine.Evaluate.{rank, max_risk, merge_outcomes, evaluate_rule}
use deko.PolicyEngine.Composite.{all_some, evaluate_rule-composite}

max_risk-ge : (best : RiskLevel) (rs : List RuleOutcome) → rank best ≤ rank (max_risk best rs)
unfolding max_risk
max_risk-ge best [] = omega arith
max_risk-ge best (r ∷ rs) = ground (arith, max_risk-ge best rs, max_risk-ge r.risk_level rs)

max_risk-All :
    (best : RiskLevel) (rs : List RuleOutcome)
    → All (λ r. rank r.risk_level ≤ rank (max_risk best rs)) rs
unfolding max_risk
max_risk-All best [] = tt
max_risk-All best (r ∷ rs) =
    let next = if leb (rank best) (rank r.risk_level) then r.risk_level else best in
    (ground (arith, max_risk-ge best rs, max_risk-ge r.risk_level rs), max_risk-All next rs)

-- A part of a merged outcome: it denies only if the whole does, and its risk is at most the whole's.
abbrev pub IsPartOf : RuleOutcome → RuleOutcome → Type 0
IsPartOf m r =
    (r.immediate_deny ≡ true → m.immediate_deny ≡ true) × (rank r.risk_level ≤ rank m.risk_level)

All-IsPartOf :
    (m : RuleOutcome) (rs : List RuleOutcome)
    → (any (λ x. x.immediate_deny) rs ≡ true → m.immediate_deny ≡ true)
    → All (λ r. rank r.risk_level ≤ rank m.risk_level) rs
    → All (IsPartOf m) rs
All-IsPartOf m [] d h = tt
All-IsPartOf m (r ∷ rs) d (p, h) =
    ((λ e. d (ground arith), p), All-IsPartOf m rs (λ e. d (ground arith)) h)

abbrev merged : RuleOutcome → List RuleOutcome → RuleOutcome
merged r rs = record {
  immediate_deny = any (λ x. x.immediate_deny) (r ∷ rs);
  message = join "; " (map (λ x. x.message) (r ∷ rs));
  risk_level = max_risk r.risk_level rs;
}

merge_outcomes-All :
    (rs : List RuleOutcome) (m : RuleOutcome) → merge_outcomes rs ≡ some m → All (IsPartOf m) rs
unfolding merge_outcomes
merge_outcomes-All [] m e = tt
merge_outcomes-All (r ∷ rs) m e =
    subst (λ m. All (IsPartOf m) (r ∷ rs)) (some-injective _ _ e)
      (All-IsPartOf (merged r rs) (r ∷ rs) (λ d. d)
        (max_risk-ge r.risk_level rs, max_risk-All r.risk_level rs))

module _ {A B : Type 0} (f : A → Option B) (Q : B → Type 0) where
  abbrev pub Yields : A → Type 0
  Yields a = (b : B) × (f a ≡ some b) × Q b

  all_some-All :
      (xs : List A) (bs : List B) → all_some (map f xs) ≡ some bs → All Q bs → All Yields xs
  all_some-All [] bs e h = tt
  all_some-All (x ∷ xs) bs e h = elim (Option-cases (f x)) [
    | inl missed ↦ absurd (none-ne-some bs (rw missed at e))
    | inr (b, found) ↦ elim (Option-cases (all_some (map f xs))) [
      | inl missed ↦ absurd (none-ne-some bs (rw (found, missed) at e))
      | inr (cs, rest) ↦
          let h' : All Q (b ∷ cs) =
            subst (All Q) (sym (some-injective _ _ (rw (found, rest) at e))) h in
          ((b, found, h'.0), all_some-All xs cs rest h'.1)
    ]
  ]

-- When an `and` rule matches, every sub-rule matches, none of them with a greater risk than the
-- whole, and the whole denies if one of them does.
pub evaluate_rule-and_parts :
    (P : Platform) (input : RuleInput) (now : Now) (fs : Fields P.Number) (xs : Items P.Number)
    (m : RuleOutcome)
    → get_field "type" fs ≡ some (text "and")
    → get_field "rules" fs ≡ some (arr xs)
    → evaluate_rule P input now (obj fs) ≡ some m
    → All (Yields (evaluate_rule P input now) (IsPartOf m)) (to_list xs)
evaluate_rule-and_parts P input now fs xs m t r e =
    let same = sym (evaluate_rule-composite P input now true fs t) ∙ e in
    elim (Option-cases (all_some (map (evaluate_rule P input now) (to_list xs)))) [
      | inl missed ↦ absurd (none-ne-some m (rw (r, missed) at same))
      | inr (rs, found) ↦
          all_some-All (evaluate_rule P input now) (IsPartOf m) (to_list xs) rs found
            (merge_outcomes-All rs m (rw (r, found) at same))
    ]
