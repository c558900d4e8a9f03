-- ===== src/Examples/Access.antt =====
-- Sessions, API keys and the forwarding of an action on a world with one of each.
use deko.Prelude.{String, Option, ℕ, inr, refl, true, none, some, [], ◌∷◌, string_eq}
use deko.Prelude.Int.{pos}
use deko.Models.{Action, Verdict, pending, approved, low}
use deko.Net.{v4}
use deko.Platform.{Platform}
use deko.World.{World, Agent, ApiKey, attempt, pure, select, gets, ◌>>=◌}
use deko.Auth.{hash_api_key, expired_at, agent_of_key, by_key, look_up, record_use, auth_middleware}
use deko.Auth.Accepted.{HasKey, auth_middleware-HasKey}
use deko.Actions.Relay.{Response}
use deko.Actions.Forward.{forward_action}
use deko.Actions.Guarded.{IsApproved, forward_action-IsApproved}
use deko.Actions.Sent.{Relays}
use deko.Actions.Create.{CreateActionRequest, create_action}
use deko.Actions.Submitted.{Adds, IsSubmitted, create_action-Adds}
use deko.Actions.Idempotent.{Repeats, create_action-Repeats}
use deko.Examples.{test_platform}
use deko.Examples.Verdicts.{an_action, a_world}

-- The clock reads noon; a time in the rfc3339 format is in the past; every URL is one of a host that
-- resolves to a public address.
abbrev pub at_noon : Platform
at_noon = record test_platform {
  sqlite_time = λ t. "2024-01-01 12:00:00";
  parse_rfc3339 = λ s. some (pos 1600000000);
  parse_url = λ s. some (record {
    as_str = s;
    scheme = "https";
    username = "";
    password = none;
    host_str = some "example.org";
    port = some 443;
  });
  to_socket_addrs = λ h p. some (v4 93 184 216 34 ∷ []);
}

abbrev pub an_agent : Agent
an_agent = record {
  id = "g1";
  name = "crawler";
  api_key_hash = "k1:s";
  active = true;
  created_at = "2024-01-01 00:00:00";
  deactivated_reason = none;
  deactivated_at = none;
  api_key_expires_at = some (pos 1577836800);
  webhook_url = none;
}

abbrev a_key : ApiKey
a_key = record {
  id = "k0";
  agent_id = "g1";
  key_hash = "k2:s";
  label = "ci";
  active = true;
  created_at = "2024-01-01 00:00:00";
  expires_at = none;
}

abbrev pub guarded_action : Action
guarded_action = record (an_action approved) {
  target_url = some "https://example.org/";
  target_method = some "POST";
}

abbrev pub guarded_verdict : Verdict
guarded_verdict = record {
  id = "v1";
  action_id = "a1";
  decision = approved;
  reason = "read only";
  risk_level = low;
  policy_matched = none;
  llm_raw_response = none;
  reasoning_chain = none;
  created_at = "2024-01-01 00:00:00";
}

abbrev pub guarded_world : World ℕ
guarded_world = record (a_world pending) {
  faults = [];
  tables = record (a_world pending).tables {
    agents = an_agent ∷ [];
    api_keys = a_key ∷ [];
    actions = guarded_action ∷ [];
    verdicts = guarded_verdict ∷ [];
    sessions =
        record { id = "t1"; identity = "admin"; expires_at = "2024-01-01 20:00:00" }
        ∷ record { id = "t2"; identity = "admin"; expires_at = "2024-01-01 08:00:00" }
        ∷ [];
  };
}

auth_middleware-HasKey_example :
    HasKey at_noon guarded_world (hash_api_key at_noon "k2" "s") an_agent
unfolding auth_middleware hash_api_key look_up by_key agent_of_key expired_at record_use ◌>>=◌
    attempt select string_eq gets pure
auth_middleware-HasKey_example =
    auth_middleware-HasKey at_noon "s" "/actions" "k2" guarded_world an_agent refl

abbrev a_response : Response
a_response = record { status = 200; location = none; body = "done" }

forward_action-IsApproved_example :
    Relays
      (IsApproved at_noon (λ n. inr a_response) "" "a1" "g1" guarded_world)
      guarded_world
      (forward_action at_noon (λ n. inr a_response) "" "a1" "g1" guarded_world).1
forward_action-IsApproved_example =
    forward_action-IsApproved at_noon (λ n. inr a_response) "" "a1" "g1" guarded_world

abbrev pub a_submission : Option String → CreateActionRequest ℕ
a_submission key = record {
  intent = "read <b>";
  payload = none;
  screenshot_base64 = none;
  metadata = none;
  target_url = some "https://example.org/";
  target_method = some "GET";
  idempotency_key = key;
  execute_at = none;
  priority = none;
  response_transform = none;
}

create_action-Adds_example :
    Adds
      (IsSubmitted at_noon "" an_agent (a_submission none))
      guarded_world
      (create_action at_noon "" an_agent (a_submission none) guarded_world).1
create_action-Adds_example =
    create_action-Adds at_noon "" an_agent (a_submission none) guarded_world

-- The action of the world with an idempotency key.
abbrev keyed_action : Action
keyed_action = record (an_action pending) { idempotency_key = some "once" }

abbrev keyed_world : World ℕ
keyed_world = record (a_world pending) {
  tables = record (a_world pending).tables { actions = keyed_action ∷ [] };
}

create_action-Repeats_example :
    Repeats at_noon "" an_agent
      (a_submission (some "once"))
      keyed_world
      keyed_action
      (create_action at_noon "" an_agent (a_submission (some "once")) keyed_world)
unfolding string_eq
create_action-Repeats_example =
    create_action-Repeats at_noon "" an_agent (a_submission (some "once")) keyed_world keyed_action
      "once" refl refl
