-- ===== src/System.antt =====
-- The entry points of the program, each a change of the shared state, and the runs of them in any
-- order: the routes, a round of the processor and the check of a request's credentials.
pub mod Rules
pub mod Relays
pub mod Services
pub mod Accounts
pub mod Ledger
pub mod History
use deko.Prelude.{ℕ, String, Bool, ◌⊎◌, Option, List, [], ◌∷◌}
use deko.Platform.{Platform}
use deko.World.{World, Agent}
use deko.VerdictService.{Service}
use deko.Processor.{round}
use deko.Session.{create, validate, delete, purge_expired}
use deko.Auth.{agent_auth_middleware, exchange_token}
use deko.Actions.Create.{CreateActionRequest, create_action}
use deko.Actions.Relay.{Response}
use deko.Actions.Forward.{forward_action}
use deko.Admin.Form
use deko.Admin.Api
use deko.Actions.Batch.{batch_create_actions}
use deko.PolicyRoutes.{
  CreatePolicyRequest, UpdatePolicyRequest, create_policy, update_policy, delete_policy,
}
use deko.Attachments.{Host, Field, upload_attachment}
use deko.Keys.{register_agent, revoke_agent, create_api_key, rotate_agent_key}

pub data Op (N F : Type 0) : Type 0 where
  -- an agent submits an action, and has one forwarded, which the targets answer
  submit : String → Agent → CreateActionRequest N → Op N F
  submit_batch : Agent → List (CreateActionRequest N) → Op N F
  forward : (ℕ → String ⊎ Response) → String → String → String → Op N F
  -- the processor
  process : Service F → (ℕ → Bool) → ℕ → ℕ → Op N F
  -- an administrator overrides
  override_form : Bool → String → String → Op N F
  override_bulk : Bool → List String → String → Op N F
  override_api : String → String → String → Op N F
  -- credentials
  authenticate : (String → Option String) → String → String → Option String → Option String → Op N F
  exchange : String → Option String → Op N F
  register : Option String → String → String → Op N F
  revoke : String → String → Option String → Op N F
  create_key : Option String → String → String → Option String → Op N F
  rotate_key : Option String → String → Op N F
  -- the policies
  add_policy : CreatePolicyRequest N → Op N F
  change_policy : String → UpdatePolicyRequest N → Op N F
  remove_policy : String → Op N F
  -- the files of an agent's action
  upload : Host → Agent → String → List Field → Op N F
  -- the sessions of the administrators
  log_in : String → Op N F
  check_session : String → Op N F
  log_out : String → Op N F
  purge : Op N F

module _ (P : Platform) where
  open P use {Number, F64}

  -- The world after one operation, whatever it returns.
  unfoldable pub perform : Op Number F64 → World Number → World Number
  unfolding create_action forward_action round Form.override_action Form.bulk_override_actions
      Api.override_action agent_auth_middleware exchange_token register_agent revoke_agent
      create_api_key rotate_agent_key create validate delete purge_expired batch_create_actions
      create_policy update_policy delete_policy upload_attachment
  perform (submit url_error agent req) w = (create_action P url_error agent req w).1
  perform (submit_batch agent reqs) w = (batch_create_actions P agent reqs w).1
  perform (add_policy req) w = (create_policy P req w).1
  perform (change_policy id req) w = (update_policy P id req w).1
  perform (remove_policy id) w = (delete_policy P id w).1
  perform (upload host agent action_id fields) w =
      (upload_attachment P host agent action_id fields w).1
  perform (forward answer url_error id agent_id) w =
      (forward_action P answer url_error id agent_id w).1
  perform (process svc shutdown ttl batch_size) w = (round P svc shutdown ttl batch_size w).1
  perform (override_form confirmed id reason) w = (Form.override_action P confirmed id reason w).1
  perform (override_bulk confirmed ids reason) w =
      (Form.bulk_override_actions P confirmed ids reason w).1
  perform (override_api id decision reason) w = (Api.override_action P id decision reason w).1
  perform (authenticate validate_token secret path bearer api_key) w =
      (agent_auth_middleware P validate_token secret path bearer api_key w).1
  perform (exchange secret header) w = (exchange_token P secret header w).1
  perform (register secret admin name) w = (register_agent P secret admin name w).1
  perform (revoke admin agent_id reason) w = (revoke_agent P admin agent_id reason w).1
  perform (create_key secret admin agent_id label) w =
      (create_api_key P secret admin agent_id label w).1
  perform (rotate_key secret admin) w = (rotate_agent_key P {A = Unit {0}} secret admin w).1
  perform (log_in identity) w = (create P identity w).1
  perform (check_session token) w = (validate P token w).1
  perform (log_out token) w = (delete P token w).1
  perform purge w = (purge_expired P w).1

  unfoldable pub run : List (Op Number F64) → World Number → World Number
  unfolding perform
  run [] w = w
  run (op ∷ ops) w = run ops (perform op w)
