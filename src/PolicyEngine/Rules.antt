-- ===== src/PolicyEngine/Rules.antt =====
-- services/policy_engine.rs: `evaluate_simple` and what it reads. The clock is an argument, read
-- once for an evaluation; the source reads it at each `time_window` rule.
use deko.Prelude.{
  ℕ, ◌-◌, ◌%◌, ◌^◌, String, ◌<>◌, Bool, true, false, ◌||◌, not, Option, none, some, List, [], ◌∷◌,
  map, any, find, ◌>>=◌, unwrap_or, ◌==◌, string_eq, nat_eq, if◌then◌else◌,
}
use deko.Prelude.Int.{ℤ, pos, negsuc, leb_ℤ, ltb_ℤ}
use deko.Prelude.Text.{contains, join, show_nat, show_int, eq_ignore_ascii_case}
use deko.Json.{Value, get, as_str, as_array, as_number}
use deko.Models.{RiskLevel, medium, high, critical}
use deko.Platform.{Platform}

-- The data of the action under evaluation.
pub record RuleInput : Type 0 where
  pub intent : String
  pub payload : Option String
  pub target_url : Option String
  pub target_method : Option String
  pub metadata : Option String

-- `Utc::now()`, as far as a rule reads it: the hour and the days since Monday.
pub record Now : Type 0 where
  pub hour : ℕ
  pub weekday : ℕ

pub record RuleOutcome : Type 0 where
  pub immediate_deny : Bool
  pub message : String
  pub risk_level : RiskLevel

abbrev pub outcome : Bool → RiskLevel → String → Option RuleOutcome
outcome deny level message =
    some (record { immediate_deny = deny; message = message; risk_level = level })

-- `if test { return outcome(true, …) } None`
abbrev pub deny_when : Bool → RiskLevel → String → Option RuleOutcome
deny_when test level message = if test then outcome true level message else none

-- `d as u32` of an `i64`
abbrev pub as_u32 : ℤ → ℕ
as_u32 (pos n) = n % 2 ^ 32
as_u32 (negsuc n) = 2 ^ 32 - 1 - n % 2 ^ 32

-- The rule types that `evaluate_simple` matches; `asynchronous` are those of ASYNC_RULE_TYPES.
pub data RuleType : Type 0 where
  deny_keyword require_approval max_amount regex_deny risk_flag url_allowlist : RuleType
  url_blocklist time_window ip_allowlist geofence asynchronous unknown : RuleType

abbrev pub async_rule_types : List String
async_rule_types =
    "rate_limit" ∷ "concurrency_limit" ∷ "budget_limit" ∷ "histogram_trend" ∷ "trend_anomaly" ∷ []

-- The arms of the `match`, in order.
unfoldable pub rule_type_of : String → RuleType
rule_type_of t =
    if t == "deny_keyword"
    then deny_keyword
    else if t == "require_approval"
    then require_approval
    else if t == "max_amount"
    then max_amount
    else if t == "regex_deny"
    then regex_deny
    else if t == "risk_flag"
    then risk_flag
    else if t == "url_allowlist"
    then url_allowlist
    else if t == "url_blocklist"
    then url_blocklist
    else if t == "time_window"
    then time_window
    else if t == "ip_allowlist"
    then ip_allowlist
    else if t == "geofence"
    then geofence
    else if any (λ a. a == t) async_rule_types
    then asynchronous
    else unknown

-- The text elements of an array, in order: those for which `as_str` answers.
unfoldable pub strings {ℓ} : {A : Type ℓ} → (A → Option String) → List A → List String
strings f [] = []
strings f (x ∷ xs) = elim (f x) [ none ↦ strings f xs | some s ↦ s ∷ strings f xs ]

-- `Debug` of `Option<Vec<u32>>`
unfoldable pub show_days : Option (List ℕ) → String
unfolding join show_nat
show_days none = "None"
show_days (some days) = "Some([" <> (join ", " (map show_nat days) <> "])")

module _ (P : Platform) where
  open P use {
    Number, F64, as_i64, as_f64, gt_f64, show_f64, from_str, to_lowercase, to_uppercase, regex,
  }

  -- `rule.get(name)?.as_array()?`, and the texts in it
  abbrev pub texts : String → Value Number → Option (List String)
  texts name rule = do v ← get name rule; xs ← as_array v; some (strings as_str xs)

  -- The loops over `keywords`: the first that the intent contains, both in lower case.
  unfoldable pub find_keyword : String → List String → Option String
  unfolding contains
  find_keyword intent kws = find (λ kw. contains (to_lowercase intent) (to_lowercase kw)) kws

  unfoldable pub regex_matches : String → String → Bool
  regex_matches text pat = elim (regex pat) [ none ↦ false | some is_match ↦ is_match text ]

  abbrev pub integer : String → Value Number → Option ℤ
  integer name rule = do v ← get name rule; n ← as_number v; as_i64 n

  abbrev pub real : String → Value Number → Option F64
  real name rule = do v ← get name rule; n ← as_number v; as_f64 n

  unfoldable pub days_of : List (Value Number) → List ℕ
  days_of [] = []
  days_of (d ∷ ds) = elim (as_number d >>= as_i64) [
    | none ↦ days_of ds
    | some n ↦ as_u32 n ∷ days_of ds
  ]

  -- `rule.get("days").and_then(as_array).map(…)`
  unfoldable pub allowed_days : Value Number → Option (List ℕ)
  unfolding days_of
  allowed_days rule = do v ← get "days" rule; xs ← as_array v; some (days_of xs)

  unfoldable pub day_ok : Option (List ℕ) → ℕ → Bool
  day_ok none today = true
  day_ok (some days) today = any (λ d. d == today) days

  module _ (rule : Value Number) (input : RuleInput) where
    unfoldable pub eval_deny_keyword : Option RuleOutcome
    unfolding find_keyword strings
    eval_deny_keyword = do
      keywords ← texts "keywords" rule
      kw ← find_keyword input.intent keywords
      outcome true critical ("Denied keyword match: " <> kw)

    unfoldable pub eval_require_approval : Option RuleOutcome
    unfolding strings
    eval_require_approval = do
      action_types ← texts "action_types" rule
      method ← input.target_method
      at ← find (λ at. to_uppercase method == to_uppercase at) action_types
      outcome false high ("Requires human approval for " <> (at <> " actions"))

    unfoldable pub eval_max_amount : Option RuleOutcome
    eval_max_amount = do
      v ← get "max" rule
      n ← as_number v
      max ← as_f64 n
      payload_str ← input.payload
      payload_json ← from_str payload_str
      a ← get "amount" payload_json
      m ← as_number a
      amount ← as_f64 m
      deny_when (gt_f64 amount max) high
          ("Amount " <> (show_f64 amount <> (" exceeds maximum " <> show_f64 max)))

    unfoldable pub eval_regex_deny : Option RuleOutcome
    unfolding strings regex_matches
    eval_regex_deny = do
      patterns ← texts "patterns" rule
      let full_text = input.intent <> (" " <> unwrap_or input.payload "")
      pat ← find (regex_matches full_text) patterns
      outcome true critical ("Regex pattern matched: " <> pat)

    unfoldable pub eval_risk_flag : Option RuleOutcome
    unfolding find_keyword strings
    eval_risk_flag = do
      keywords ← texts "keywords" rule
      kw ← find_keyword input.intent keywords
      outcome false medium ("Risk flag: " <> kw)

    unfoldable pub eval_url_allowlist : Option RuleOutcome
    unfolding strings contains
    eval_url_allowlist = do
      allowed ← texts "patterns" rule
      url ← input.target_url
      deny_when (not (any (contains url) allowed)) high ("URL not in allowlist: " <> url)

    unfoldable pub eval_url_blocklist : Option RuleOutcome
    unfolding strings contains
    eval_url_blocklist = do
      blocked ← texts "patterns" rule
      url ← input.target_url
      pat ← find (contains url) blocked
      outcome true critical ("URL matches blocklist: " <> pat)

    unfoldable pub eval_time_window : Now → Option RuleOutcome
    unfolding allowed_days day_ok show_int show_days
    eval_time_window now =
        let start = unwrap_or (integer "start_hour_utc" rule) (pos 0) in
        let stop = unwrap_or (integer "end_hour_utc" rule) (pos 24) in
        let days = allowed_days rule in
        deny_when
          (not (day_ok days now.weekday) || ltb_ℤ (pos now.hour) start || leb_ℤ stop (pos now.hour))
          medium
          ("Action outside allowed time window (UTC "
            <> (show_int start
                <> ("-" <> (show_int stop <> (", allowed days: " <> (show_days days <> ")"))))))

    -- A text member of the metadata, which is parsed as JSON.
    abbrev metadata_text : String → Option String
    metadata_text name = do
      meta ← input.metadata
      parsed ← from_str meta
      v ← get name parsed
      as_str v

    unfoldable pub eval_ip_allowlist : Option RuleOutcome
    unfolding strings contains
    eval_ip_allowlist = do
      ip ← metadata_text "source_ip"
      allowed ← texts "patterns" rule
      deny_when (not (any (contains ip) allowed)) high ("Source IP " <> (ip <> " not in allowlist"))

    unfoldable pub eval_geofence : Option RuleOutcome
    unfolding strings eq_ignore_ascii_case
    eval_geofence = do
      country ← metadata_text "country"
      blocked ← texts "blocked_countries" rule
      deny_when (any (λ b. eq_ignore_ascii_case b country) blocked) high
          ("Country " <> (country <> " is blocked by geofence policy"))

    abbrev pub unknown_message : String → String
    unknown_message t =
        "Policy contains unknown rule type '"
        <> (t <> "' (fail-closed deny); review the policy definition")

    unfoldable pub eval_of : RuleType → Now → String → Option RuleOutcome
    eval_of deny_keyword now t = eval_deny_keyword
    eval_of require_approval now t = eval_require_approval
    eval_of max_amount now t = eval_max_amount
    eval_of regex_deny now t = eval_regex_deny
    eval_of risk_flag now t = eval_risk_flag
    eval_of url_allowlist now t = eval_url_allowlist
    eval_of url_blocklist now t = eval_url_blocklist
    eval_of time_window now t = eval_time_window now
    eval_of ip_allowlist now t = eval_ip_allowlist
    eval_of geofence now t = eval_geofence
    eval_of asynchronous now t = none
    eval_of unknown now t = outcome true high (unknown_message t)

    unfoldable pub evaluate_simple : Now → String → Option RuleOutcome
    unfolding rule_type_of eval_of
    evaluate_simple now rule_type = eval_of (rule_type_of rule_type) now rule_type
