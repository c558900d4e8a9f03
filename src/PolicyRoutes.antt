-- ===== src/PolicyRoutes.antt =====
-- routes/policies.rs: the policies as administrators keep them, and the trial of rules. The column
-- `rules` is given by its JSON value.
pub mod Engine
pub mod Deleted
use deko.Prelude.{
  ℕ, String, Bool, true, false, not, ◌&&◌, ◌||◌, Option, none, some, List, [], ◌∷◌, ◌++◌, map, any,
  keep, unwrap_or, order_by, is_some, find, ◌==◌, string_eq, if◌then◌else◌,
}
use deko.Prelude.Int.{pos}
use deko.Prelude.Text.{trim, leb_text}
use deko.Json.{Value, object, text, bool, null, arr, from_list}
use deko.Models.{Policy, RiskLevel, show_risk}
use deko.Errors.{bad_request, not_found}
use deko.Platform.{Platform}
use deko.PolicyEngine.Rules.{RuleInput, RuleOutcome, Now}
use deko.PolicyEngine.Sorting.{sort_rules}
use deko.PolicyEngine.Evaluate.{evaluate_rule}
use deko.Audit.Record.{record_entry}
use deko.World.{
  World, Tables, PolicyRow, M, pure, raise, select, execute, statement, gets, draw, ◌>>=◌,
}
use deko.VerdictService.Policies.{array_of, now_of}

pub record CreatePolicyRequest (N : Type 0) : Type 0 where
  pub name : String
  pub description : String
  pub rules : Value N

pub record UpdatePolicyRequest (N : Type 0) : Type 0 where
  pub name : Option String
  pub description : Option String
  pub rules : Option (Value N)
  pub active : Option Bool

pub record TestPolicyRequest (N : Type 0) : Type 0 where
  pub rules : Value N
  pub intent : String
  pub payload : Option String
  pub target_url : Option String

pub record SimulateRequest : Type 0 where
  pub intent : String
  pub payload : Option String
  pub target_url : Option String

-- What a trial of rules has found so far.
pub record Trial : Type 0 where
  pub matched : Bool
  pub immediate_deny : Bool
  pub reason : String
  pub risk_level : Option RiskLevel

module _ {N : Type 0} where
  abbrev has_id : String → PolicyRow N → Bool
  has_id id row = row.policy.id == id

  abbrev pub changed : String → (Policy N → Policy N) → List (PolicyRow N) → List (PolicyRow N)
  changed id f rows =
      map (λ row. if has_id id row then record row { policy = f row.policy } else row) rows

  -- The columns of the SET clause.
  abbrev pub updated : UpdatePolicyRequest N → String → Policy N → Policy N
  updated req now p = record p {
    name = unwrap_or req.name p.name;
    description = unwrap_or req.description p.description;
    rules = unwrap_or req.rules p.rules;
    active = unwrap_or req.active p.active;
    updated_at = now;
  }

  abbrev pub has_fields : UpdatePolicyRequest N → Bool
  has_fields req =
      is_some req.name || is_some req.description || is_some req.rules || is_some req.active

module _ (P : Platform) where
  open P use {Number, uuid, sqlite_time}

  abbrev pub new_policy : CreatePolicyRequest Number → String → String → PolicyRow Number
  new_policy req id now = record {
    policy = record {
      id = id;
      name = req.name;
      description = req.description;
      rules = req.rules;
      active = true;
      created_at = now;
      updated_at = now;
    };
    activate_at = none;
    deactivate_at = none;
  }

  unfoldable pub create_policy : CreatePolicyRequest Number → M Number String
  unfolding trim
  create_policy req = if trim req.name == "" then raise (bad_request "name is required") else do
    id ← draw
    now ← gets (λ w. sqlite_time (pos w.clock))
    _ ← execute (λ t. record t { policies = t.policies ++ (new_policy req (uuid id) now ∷ []) })
    _ ←
        record_entry P none "policy_created"
          (object (("policy_id", text (uuid id)) ∷ ("name", text req.name) ∷ []))
    pure (uuid id)

  abbrev pub policy_members : PolicyRow Number → Value Number
  policy_members row = object (
      ("id", text row.policy.id)
      ∷ ("name", text row.policy.name)
      ∷ ("description", text row.policy.description)
      ∷ ("rules", row.policy.rules)
      ∷ ("active", bool row.policy.active)
      ∷ ("created_at", text row.policy.created_at)
      ∷ ("updated_at", text row.policy.updated_at)
      ∷ [])

  unfoldable pub list_policies : M Number (List (Value Number))
  unfolding order_by
  list_policies = select (λ t.
      map policy_members
        (order_by (λ p q. leb_text q.policy.created_at p.policy.created_at) t.policies))

  unfoldable pub update_found : String → UpdatePolicyRequest Number → Bool → M Number String
  update_found id req false = raise (not_found "Policy not found")
  update_found id req true =
      if not (has_fields req) then raise (bad_request "No fields to update") else do
        now ← gets (λ w. sqlite_time (pos w.clock))
        _ ← execute (λ t. record t { policies = changed id (updated req now) t.policies })
        _ ← record_entry P none "policy_updated" (object (("policy_id", text id) ∷ []))
        pure id

  unfoldable pub update_policy : String → UpdatePolicyRequest Number → M Number String
  unfolding update_found
  update_policy id req = select (λ t. any (has_id id) t.policies) >>= update_found id req

  unfoldable pub record_deleted : String → Bool → M Number String
  record_deleted id false = raise (not_found "Policy not found")
  record_deleted id true = do
    _ ← record_entry P none "policy_deleted" (object (("policy_id", text id) ∷ []))
    pure id

  -- A deleted policy stays in the table, inactive.
  unfoldable pub delete_policy : String → M Number String
  unfolding record_deleted
  delete_policy id = do
    now ← gets (λ w. sqlite_time (pos w.clock))
    found ← statement (λ t. (
      any (has_id id) t.policies,
      record t {
        policies = changed id (λ p. record p { active = false; updated_at = now }) t.policies;
      },
    ))
    record_deleted id found

  abbrev pub trial_input : TestPolicyRequest Number → RuleInput
  trial_input req = record {
    intent = req.intent;
    payload = req.payload;
    target_url = req.target_url;
    target_method = none;
    metadata = none;
  }

  abbrev pub noted : Trial → RuleOutcome → Trial
  noted trial o = record {
    matched = true;
    immediate_deny = trial.immediate_deny || o.immediate_deny;
    reason = o.message;
    risk_level = some o.risk_level;
  }

  -- The loop over the sorted rules, which test_policy and test_policy_inner share.
  unfoldable pub trial_loop : Now → RuleInput → List (Value Number) → Trial → Trial
  trial_loop now input [] trial = trial
  trial_loop now input (rule ∷ rules) trial = elim (evaluate_rule P input now rule) [
    | none ↦ trial_loop now input rules trial
    | some o ↦
        if o.immediate_deny then noted trial o else trial_loop now input rules (noted trial o)
  ]

  abbrev pub no_match : Trial
  no_match = record {
    matched = false;
    immediate_deny = false;
    reason = "No rules matched";
    risk_level = none;
  }

  unfoldable pub try_rules : Now → TestPolicyRequest Number → Trial
  unfolding trial_loop sort_rules
  try_rules now req = trial_loop now (trial_input req) (sort_rules P (array_of req.rules)) no_match

  abbrev risk_text : Option RiskLevel → Value Number
  risk_text none = null
  risk_text (some r) = text (show_risk r)

  abbrev trial_members : Trial → List (String × Value Number)
  trial_members t =
      ("matched", bool t.matched)
      ∷ ("immediate_deny", bool t.immediate_deny)
      ∷ ("reason", text (if t.matched then t.reason else "No rules matched"))
      ∷ ("risk_level", risk_text t.risk_level)
      ∷ []

  unfoldable pub test_policy : TestPolicyRequest Number → M Number (Value Number)
  unfolding try_rules show_risk
  test_policy req = gets (λ w. object (trial_members (try_rules (now_of w.clock) req)))

  -- The trial of one policy, and its default where no rule matched.
  unfoldable pub test_policy_inner : Now → TestPolicyRequest Number → Option Trial
  unfolding try_rules
  test_policy_inner now req = let t = try_rules now req in if t.matched then some t else none

  abbrev pub request_for : SimulateRequest → Policy Number → TestPolicyRequest Number
  request_for req policy = record {
    rules = policy.rules;
    intent = req.intent;
    payload = req.payload;
    target_url = req.target_url;
  }

  abbrev pub simulated : Now → SimulateRequest → Policy Number → Value Number
  simulated now req policy = object (
      ("policy_id", text policy.id)
      ∷ ("policy_name", text policy.name)
      ∷ trial_members (unwrap_or (test_policy_inner now (request_for req policy)) no_match))

  -- The schedule of a policy is not read here.
  unfoldable pub simulate_policies : SimulateRequest → M Number (List (Value Number))
  unfolding test_policy_inner show_risk
  simulate_policies req = do
    now ← gets (λ w. now_of w.clock)
    policies ← select (λ t. keep (λ p. p.active) (map (λ row. row.policy) t.policies))
    pure (map (simulated now req) policies)
