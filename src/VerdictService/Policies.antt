-- ===== src/VerdictService/Policies.antt =====
-- services/verdict.rs: `evaluate_policies`, which runs the rules of the active policies in order
-- and then the limits that need the database.
use deko.Prelude.{
  ℕ, ◌+◌, ◌/◌, ◌%◌, String, ◌<>◌, Bool, true, false, not, ◌&&◌, ◌||◌, Option, none, some, List, [],
  ◌∷◌, ◌++◌, map, keep, order_by, ◌==◌, string_eq, if◌then◌else◌, unwrap_or,
}
use deko.Prelude.Text.{join, leb_text, ltb_text}
use deko.Prelude.Int.{pos}
use deko.Json.{Value, object, text, bool, null, get, as_array}
use deko.Models.{Action, Policy}
use deko.Platform.{Platform}
use deko.PolicyEngine.Sorting.{sort_rules}
use deko.PolicyEngine.Rules.{RuleInput, Now, RuleOutcome}
use deko.PolicyEngine.Evaluate.{evaluate_rule}
use deko.Audit.Record.{record_entry}
use deko.World.{Tables, PolicyRow, M, pure, select, attempt, gets, ◌>>=◌}
use deko.VerdictService.{Service, PolicyEvaluation}
use deko.VerdictService.Limits.{check_limits}

abbrev pub from_action : Action → RuleInput
from_action action = record {
  intent = action.intent;
  payload = action.payload;
  target_url = action.target_url;
  target_method = action.target_method;
  metadata = action.metadata;
}

-- `hour` and `num_days_from_monday` of a time in seconds; the first day of the epoch is a Thursday.
abbrev pub now_of : ℕ → Now
now_of t = record { hour = t / 3600 % 24; weekday = (t / 86400 + 3) % 7 }

-- NULL or at most now; NULL or after now.
abbrev pub starts : Option String → String → Bool
starts none now = true
starts (some t) now = leb_text t now

abbrev pub not_ended : Option String → String → Bool
not_ended none now = true
not_ended (some t) now = ltb_text now t

module _ {N : Type 0} where
  unfoldable pub is_in_force : String → PolicyRow N → Bool
  is_in_force now row =
      row.policy.active && starts row.activate_at now && not_ended row.deactivate_at now

  -- `ORDER BY created_at ASC, id ASC`
  abbrev pub older : Policy N → Policy N → Bool
  older p q =
      ltb_text p.created_at q.created_at || (p.created_at == q.created_at && leb_text p.id q.id)

  unfoldable pub active_policies : String → Tables N → List (Policy N)
  unfolding is_in_force order_by
  active_policies now t = order_by older (map (λ r. r.policy) (keep (is_in_force now) t.policies))

  -- The rules of a policy in the order of evaluation; none if they are no array.
  abbrev pub array_of : Value N → List (Value N)
  array_of v = unwrap_or (as_array v) []

module _ (P : Platform) (svc : Service P.F64) (action : Action) where
  open P use {Number, sqlite_time}

  unfoldable pub violation : Policy Number → RuleOutcome → List String → PolicyEvaluation
  unfolding join
  violation policy result parts = record {
    immediate_deny = true;
    reason = some ("Policy '" <> (policy.name <> ("' violated: " <> result.message)));
    risk_level = some result.risk_level;
    matched_policy_id = some policy.id;
    context = join "; " parts;
  }

  abbrev pub match_details : Policy Number → Value Number → RuleOutcome → Value Number
  match_details policy rule result = object (
      ("policy_id", text policy.id)
      ∷ ("policy_name", text policy.name)
      ∷ ("rule_type", unwrap_or (get "type" rule) null)
      ∷ ("message", text result.message)
      ∷ ("dry_run", bool svc.is_dry_run)
      ∷ [])

  -- The rules of one policy: the context so far, and the evaluation if a rule ends it.
  unfoldable pub rules_loop :
      Now
      → Policy Number
      → List (Value Number)
      → List String
      → M Number (List String × Option PolicyEvaluation)
  unfolding violation
  rules_loop now policy [] parts = pure (parts, none)
  rules_loop now policy (rule ∷ rules) parts =
      elim (evaluate_rule P (from_action action) now rule) [
        | none ↦ rules_loop now policy rules parts
        | some result ↦ do
          let longer = parts ++ ((policy.name <> (": " <> result.message)) ∷ [])
          _ ←
              attempt (
                record_entry P (some action.id) "policy_matched" (match_details policy rule result))
          if result.immediate_deny && not svc.is_dry_run
              then pure (longer, some (violation policy result longer))
              else rules_loop now policy rules longer
      ]

  abbrev pub or_continue :
      List String × Option PolicyEvaluation
      → (List String → M Number (List String × Option PolicyEvaluation))
      → M Number (List String × Option PolicyEvaluation)
  or_continue (parts, some e) next = pure (parts, some e)
  or_continue (parts, none) next = next parts

  unfoldable pub policies_loop :
      Now → List (Policy Number) → List String → M Number (List String × Option PolicyEvaluation)
  unfolding rules_loop
  policies_loop now [] parts = pure (parts, none)
  policies_loop now (policy ∷ policies) parts = do
    found ← rules_loop now policy (sort_rules P (array_of policy.rules)) parts
    or_continue found (policies_loop now policies)

  abbrev no_violation : List String → PolicyEvaluation
  no_violation parts = record {
    immediate_deny = false;
    reason = none;
    risk_level = none;
    matched_policy_id = none;
    context = elim parts [
      | [] ↦ "No active policy rules matched"
      | part ∷ rest ↦ join "; " (part ∷ rest)
    ];
  }

  abbrev pub then_limits :
      List (Policy Number) → List String × Option PolicyEvaluation → M Number PolicyEvaluation
  then_limits policies (parts, some e) = pure e
  then_limits policies (parts, none) = do
    limited ← check_limits P svc action (join "; " parts) policies
    pure (unwrap_or limited (no_violation parts))

  unfoldable pub evaluate_policies : M Number PolicyEvaluation
  unfolding active_policies policies_loop join
  evaluate_policies = do
    now ← gets (λ w. w.clock)
    policies ← select (active_policies (sqlite_time (pos now)))
    found ← policies_loop (now_of now) policies []
    then_limits policies found
