-- ===== src/Actions/Read.antt =====
-- The reads of an agent: get_action, get_action_status, list_actions, and the poll for a verdict.
use deko.Prelude.{
  ℕ, String, Bool, true, false, Option, none, some, List, [], ◌∷◌, map, keep, take, drop, length,
  unwrap_or, order_by, ◌==◌, string_eq, if◌then◌else◌, ◌>>=◌ as ◌>>=?◌,
}
use deko.Prelude.Int.{ℤ, pos, negsuc, ltb_ℤ}
use deko.Prelude.Text.{leb_text}
use deko.Json.{Value, object, text, number}
use deko.Models.{
  Action, ActionStatus, Verdict, VerdictDecision, RiskLevel, show_status, show_decision, show_risk,
}
use deko.Errors.{not_found, forbidden, database}
use deko.Platform.{Platform}
use deko.World.{Agent, Tables, M, pure, raise, select, attempt, require, for_some, ◌>>=◌}
use deko.VerdictService.Process.{find_action}
use deko.Actions.Forward.{find_verdict}

-- models/verdict.rs
pub record VerdictResponse : Type 0 where
  pub id : String
  pub action_id : String
  pub decision : VerdictDecision
  pub reason : String
  pub risk_level : RiskLevel
  pub reasoning_chain : Option String
  pub created_at : String

pub record ActionDetailResponse (N : Type 0) : Type 0 where
  pub id : String
  pub agent_id : String
  pub intent : String
  pub payload : Option String
  pub metadata : Option (Value N)
  pub status : ActionStatus
  pub target_url : Option String
  pub target_method : Option String
  pub created_at : String
  pub updated_at : String
  pub verdict : Option VerdictResponse

pub record ListActionsResponse (N : Type 0) : Type 0 where
  pub actions : List (ActionDetailResponse N)
  pub total : ℕ

abbrev pub response_of : Verdict → VerdictResponse
response_of v = record {
  id = v.id;
  action_id = v.action_id;
  decision = v.decision;
  reason = v.reason;
  risk_level = v.risk_level;
  reasoning_chain = v.reasoning_chain;
  created_at = v.created_at;
}

abbrev pub response_if : Option Verdict → Option VerdictResponse
response_if none = none
response_if (some v) = some (response_of v)

-- `LIMIT` and `OFFSET`: SQLite takes a negative limit for none, and a negative offset for 0.
abbrev page {ℓ} : {A : Type ℓ} → ℤ → ℤ → List A → List A
page (pos n) (pos k) xs = take n (drop k xs)
page (pos n) (negsuc k) xs = take n xs
page (negsuc n) (pos k) xs = drop k xs
page (negsuc n) (negsuc k) xs = xs

abbrev at_most_100 : ℤ → ℤ
at_most_100 n = if ltb_ℤ (pos 100) n then pos 100 else n

module _ (P : Platform) where
  open P use {Number, from_str, from_nat}

  abbrev pub detail : Action → Option VerdictResponse → ActionDetailResponse Number
  detail a verdict = record {
    id = a.id;
    agent_id = a.agent_id;
    intent = a.intent;
    payload = a.payload;
    metadata = a.metadata >>=? from_str;
    status = a.status;
    target_url = a.target_url;
    target_method = a.target_method;
    created_at = a.created_at;
    updated_at = a.updated_at;
    verdict = verdict;
  }

  -- What is found for the agent who owns the action.
  unfoldable pub for_owner : {A : Type 0} → String → Agent → (Action → M Number A) → M Number A
  unfolding find_action
  for_owner id agent next = do
    row ← select (find_action id)
    action ← require (not_found "Action not found") row
    if action.agent_id == agent.id
        then next action
        else raise (forbidden "Action belongs to another agent")

  unfoldable pub get_action : String → Agent → M Number (ActionDetailResponse Number)
  unfolding for_owner
  get_action id agent = for_owner id agent (λ action.
      select (find_verdict id) >>= (λ verdict. pure (detail action (response_if verdict))))

  -- The body of the answer, and whether it has the header Retry-After.
  unfoldable pub status_answer : String → Action → Option Verdict → Value Number × Bool
  unfolding show_status show_decision show_risk
  status_answer id action none = (
    object (
        ("action_id", text id)
        ∷ ("status", text "pending")
        ∷ ("retry_after", number (from_nat 5))
        ∷ []),
    true,
  )
  status_answer id action (some v) = (
    object (
        ("action_id", text id)
        ∷ ("status", text (show_status action.status))
        ∷ (
          "verdict",
          object (
              ("decision", text (show_decision v.decision))
              ∷ ("reason", text v.reason)
              ∷ ("risk_level", text (show_risk v.risk_level))
              ∷ []),
        )
        ∷ []),
    false,
  )

  unfoldable pub get_action_status : String → Agent → M Number (Value Number × Bool)
  unfolding for_owner status_answer
  get_action_status id agent =
      for_owner id agent
        (λ action. select (find_verdict id) >>= (λ verdict. pure (status_answer id action verdict)))

  -- Three values are bound whatever the query holds: with a status, the one for OFFSET is missing,
  -- and SQLite refuses NULL there.
  unfoldable pub list_actions :
      Agent → Option String → Option ℤ → Option ℤ → M Number (ListActionsResponse Number)
  unfolding order_by
  list_actions agent (some status) limit offset = raise database
  list_actions agent none limit offset = do
    let own = λ (t : Tables Number). keep (λ (a : Action). a.agent_id == agent.id) t.actions
    actions ← select (λ t.
        page (at_most_100 (unwrap_or limit (pos 50))) (unwrap_or offset (pos 0))
          (order_by (λ (a b : Action). leb_text b.created_at a.created_at) (own t)))
    total ← select (λ t. length (own t))
    pure (record { actions = map (λ a. detail a none) actions; total = total })

  -- wait_for_verdict_response: an error is an answer that is not there yet.
  unfoldable pub wait_for_verdict_response :
      String → M Number (Option (ActionDetailResponse Number))
  unfolding find_action
  wait_for_verdict_response id = do
    row ← attempt (select (find_action id))
    for_some (row >>=? λ o. o) none (λ action. attempt (select (find_verdict id)) >>= (λ found.
        for_some (found >>=? λ o. o) none
          (λ verdict. pure (some (detail action (some (response_of verdict)))))))
