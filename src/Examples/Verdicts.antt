-- ===== src/Examples/Verdicts.antt =====
-- The verdict service on a world with one action.
use deko.Prelude.{ℕ, ◌≡◌, ◌⊎◌, true, false, none, List, [], ◌∷◌, string_eq}
use deko.Prelude.Int.{pos}
use deko.Json.{arr, nil}
use deko.Models.{Action, ActionStatus, pending, processing, approved, low, Policy}
use deko.Errors.{ok, err, database, open_ai}
use deko.Llm.{Provider, VerdictResult, provider_gemini, provider_open_ai}
use deko.World.{World}
use deko.VerdictService.{Service}
use deko.VerdictService.Analysis.{try_llm_analysis}
use deko.VerdictService.Process.{save_verdict, process_action}
use deko.VerdictService.Decision.{RestsOn, try_llm_analysis-first}
use deko.VerdictService.Atomic.{with_verdict, save_verdict-atomic}
use deko.VerdictService.Tables.{AgreesBut, process_action-frame}
use deko.Examples.{test_platform}

abbrev pub an_action : ActionStatus → Action
an_action s = record {
  id = "a1";
  agent_id = "g1";
  intent = "read the report";
  payload = none;
  screenshot_base64 = none;
  metadata = none;
  status = s;
  target_url = none;
  target_method = none;
  created_at = "2024-01-01 00:00:00";
  updated_at = "2024-01-01 00:00:00";
  idempotency_key = none;
  priority = pos 0;
  execute_at = none;
}

abbrev pub a_world : ActionStatus → World ℕ
a_world s = record {
  tables = record {
    agents = [];
    api_keys = [];
    actions = an_action s ∷ [];
    verdicts = [];
    policies = [];
    sessions = [];
    audit_log = [];
    attachments = [];
  };
  faults = false ∷ true ∷ [];
  uuids = 0;
  clock = 1700000000;
  metrics = record {
    actions_total = 0;
    actions_approved = 0;
    actions_denied = 0;
    actions_escalated = 0;
    llm_calls_total = 0;
    llm_errors = 0;
    llm_latency_ms = 0;
  };
  provider_healthy = true;
  llm_requests = [];
  broadcasts = [];
  webhooks = [];
  relayed = [];
  files = [];
}

abbrev an_approval : VerdictResult ℕ
an_approval = record {
  decision = approved;
  reason = "read only";
  risk_level = low;
  raw_response = "{}";
  provider = provider_gemini;
  model = "m";
  confidence = 1;
  reasoning_chain = none;
}

-- The first provider fails, the second approves.
abbrev two_providers : List (Provider ℕ)
two_providers =
    record {
      name = provider_open_ai;
      model_name = "m";
      analyze_action = λ i p s c. err (open_ai "timeout");
    }
    ∷ record {
      name = provider_gemini;
      model_name = "m";
      analyze_action = λ i p s c. ok an_approval;
    }
    ∷ []

abbrev pub a_service : Service ℕ
a_service = record {
  providers = two_providers;
  webhook = record { webhook_url = none; webhook_secret = none };
  is_dry_run = false;
  elapsed = 12;
  answers = λ n. true;
  url_error = "";
}

abbrev pub a_policy : Policy ℕ
a_policy = record {
  id = "p1";
  name = "one at a time";
  description = "";
  rules = arr nil;
  active = true;
  created_at = "2024-01-01 00:00:00";
  updated_at = "2024-01-01 00:00:00";
}

try_llm_analysis-first_example :
    (v : VerdictResult ℕ) × ((try_llm_analysis test_platform a_service
        (an_action pending)
        ""
        (a_world pending)).0
      ≡ ok v)
    × RestsOn test_platform a_service (an_action pending) "" two_providers v
try_llm_analysis-first_example =
    try_llm_analysis-first test_platform a_service (an_action pending) "" (a_world pending)

save_verdict-atomic_example :
    let (r, v) =
      save_verdict test_platform a_service "a1" "g1" an_approval none (a_world processing) in
    ((r ≡ err database)
      × (v.tables ≡ (a_world processing).tables)
      × (v.broadcasts ≡ [])
      × (v.webhooks ≡ []))
    ⊎ (v.tables
        ≡ with_verdict test_platform a_service
            (test_platform.uuid 0)
            "a1"
            an_approval
            none
            (test_platform.uuid 1)
            (test_platform.sqlite_time (pos 1700000000))
            (a_world processing).tables)
save_verdict-atomic_example =
    save_verdict-atomic test_platform a_service "a1" "g1" an_approval none (a_world processing)

process_action-frame_example :
    AgreesBut "a1"
      (a_world pending).tables
      (process_action test_platform a_service "a1" (a_world pending)).1.tables
process_action-frame_example = process_action-frame test_platform a_service "a1" (a_world pending)
