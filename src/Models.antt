-- ===== src/Models.antt =====
-- models/: the enumerations with their spelling in the database (`Display`), and the rows. Times
-- are the texts that the database stores.
use deko.Prelude.{ℕ, String, Bool, Option}
use deko.Prelude.Int.{ℤ}
use deko.Json.{Value}

pub data RiskLevel : Type 0 where
  low medium high critical : RiskLevel

pub data VerdictDecision : Type 0 where
  approved denied escalate : VerdictDecision

pub data ActionStatus : Type 0 where
  pending processing approved denied escalated forwarded forward_failed : ActionStatus

unfoldable pub show_risk : RiskLevel → String
show_risk low = "low"
show_risk medium = "medium"
show_risk high = "high"
show_risk critical = "critical"

unfoldable pub show_decision : VerdictDecision → String
show_decision VerdictDecision.approved = "approved"
show_decision VerdictDecision.denied = "denied"
show_decision escalate = "escalate"

unfoldable pub show_status : ActionStatus → String
show_status pending = "pending"
show_status processing = "processing"
show_status ActionStatus.approved = "approved"
show_status ActionStatus.denied = "denied"
show_status escalated = "escalated"
show_status forwarded = "forwarded"
show_status forward_failed = "forward_failed"

pub record Action : Type 0 where
  pub id : String
  pub agent_id : String
  pub intent : String
  pub payload : Option String
  pub screenshot_base64 : Option String
  pub metadata : Option String
  pub status : ActionStatus
  pub target_url : Option String
  pub target_method : Option String
  pub created_at : String
  pub updated_at : String
  pub idempotency_key : Option String
  pub priority : ℤ
  pub execute_at : Option String

pub record Verdict : Type 0 where
  pub id : String
  pub action_id : String
  pub decision : VerdictDecision
  pub reason : String
  pub risk_level : RiskLevel
  pub policy_matched : Option String
  pub llm_raw_response : Option String
  pub reasoning_chain : Option String
  pub created_at : String

-- models/attachment.rs; the size is the length of a file, which is never negative
pub record Attachment : Type 0 where
  pub id : String
  pub action_id : String
  pub filename : String
  pub content_type : String
  pub file_size : ℕ
  pub storage_path : String
  pub created_at : String

pub record Policy (N : Type 0) : Type 0 where
  pub id : String
  pub name : String
  pub description : String
  pub rules : Value N
  pub active : Bool
  pub created_at : String
  pub updated_at : String
