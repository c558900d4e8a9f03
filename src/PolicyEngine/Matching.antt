-- ===== src/PolicyEngine/Matching.antt =====
-- When the simple rules match.
use deko.Prelude.{
  ◌≡◌, ◌≢◌, ◌↔◌, refl, String, Bool, true, false, none, some, List, [], ◌∷◌, any, find, arith, All,
  ◌∙◌, is_some, string_eq, ℕ, map, ◌⊎◌,
}
use deko.Prelude.Int.{pos}
use deko.Prelude.Text.{contains}
use deko.Json.{arr, number, from_list, Value, text, obj, Fields, get_field}
use deko.Models.{high}
use deko.Platform.{Platform}
use deko.PolicyEngine.Rules.{
  RuleInput, Now, async_rule_types, unknown, rule_type_of, texts, eval_deny_keyword,
  eval_url_allowlist, eval_url_blocklist, evaluate_simple, outcome, unknown_message,
}
use deko.PolicyEngine.Evaluate.{evaluate_rule}

-- Every rule type that the engine knows: those with a check and the asynchronous ones.
abbrev pub known_types : List String
known_types =
    "and" ∷ "or" ∷ "deny_keyword" ∷ "require_approval" ∷ "max_amount" ∷ "regex_deny" ∷ "risk_flag"
    ∷ "url_allowlist" ∷ "url_blocklist" ∷ "time_window" ∷ "ip_allowlist" ∷ "geofence"
    ∷ async_rule_types

rule_type_of_unknown : (t : String) → All (λ k. t ≢ k) known_types → rule_type_of t ≡ unknown
unfolding rule_type_of
rule_type_of_unknown t h = ground arith

evaluate_rule-simple :
    (P : Platform) (input : RuleInput) (now : Now) (fs : Fields P.Number) (t : String)
    → get_field "type" fs ≡ some (text t)
    → t ≢ "and"
    → t ≢ "or"
    → evaluate_rule P input now (obj fs) ≡ evaluate_simple P (obj fs) input now t
unfolding evaluate_rule
evaluate_rule-simple P input now fs t h a o = rw (h, evaluate_rule) (ground arith)

evaluate_simple-unknown :
    (P : Platform) (rule : Value P.Number) (input : RuleInput) (now : Now) (t : String)
    → rule_type_of t ≡ unknown
    → evaluate_simple P rule input now t ≡ outcome true high (unknown_message P rule input t)
unfolding evaluate_simple
evaluate_simple-unknown P rule input now t h = ground arith

-- A rule whose type the engine does not know matches every action, and denies it at high risk.
pub evaluate_rule-unknown :
    (P : Platform) (input : RuleInput) (now : Now) (fs : Fields P.Number) (t : String)
    → get_field "type" fs ≡ some (text t)
    → All (λ k. t ≢ k) known_types
    → evaluate_rule P input now (obj fs) ≡ outcome true high (unknown_message P (obj fs) input t)
evaluate_rule-unknown P input now fs t h k =
    evaluate_rule-simple P input now fs t h k.0 k.1.0
    ∙ evaluate_simple-unknown P (obj fs) input now t (rule_type_of_unknown t k)

find-eq-none_iff :
    {A : Type 0} (p : A → Bool) (xs : List A) → (find p xs ≡ none) ↔ All (λ x. p x ≡ false) xs
find-eq-none_iff p [] = (λ e. tt, λ h. refl)
find-eq-none_iff p (x ∷ xs) = ground (arith, find-eq-none_iff p xs)

any-eq-find : {A : Type 0} (p : A → Bool) (xs : List A) → any p xs ≡ is_some (find p xs)
any-eq-find p [] = refl
any-eq-find p (x ∷ xs) = ground (arith, any-eq-find p xs)

module _ (P : Platform) (rule : Value P.Number) (input : RuleInput) where
  -- A `deny_keyword` rule passes an action exactly if the intent holds none of the keywords, in
  -- lower case both.
  pub eval_deny_keyword_iff :
      (kws : List String)
      → texts P "keywords" rule ≡ some kws
      → (eval_deny_keyword P rule input ≡ none)
        ↔ All (λ kw. contains (P.to_lowercase input.intent) (P.to_lowercase kw) ≡ false) kws
  unfolding eval_deny_keyword
  eval_deny_keyword_iff kws h = rw h (
      ground (
        arith,
        find-eq-none_iff (λ kw. contains (P.to_lowercase input.intent) (P.to_lowercase kw)) kws,
      ))

  -- On the same patterns and a target URL, one of the allowlist and the blocklist denies, never
  -- both.
  pub allowlist-blocklist :
      (pats : List String) (url : String)
      → texts P "patterns" rule ≡ some pats
      → input.target_url ≡ some url
      → (eval_url_allowlist P rule input ≡ none) ↔ (eval_url_blocklist P rule input ≢ none)
  unfolding eval_url_allowlist eval_url_blocklist
  allowlist-blocklist pats url h u = rw (h, u) (ground (arith, any-eq-find (contains url) pats))

abbrev pub IsOneOf : ℕ → List ℕ → Type 0
IsOneOf d [] = ⊥
IsOneOf d (x ∷ xs) = (x ≡ d) ⊎ IsOneOf d xs

-- The times are seconds of Unix time. 1970-01-05, 345600 seconds after the epoch, was a Monday.
module _ (P : Platform) (reads : (n : ℕ) → P.as_i64 (P.from_nat n) ≡ some (pos n)) where
  -- The whole numbers as an array of JSON.
  abbrev pub numbers : List ℕ → Value P.Number
  numbers ns = arr (from_list (map (λ n. number (P.from_nat n)) ns))
