-- ===== src/Actions/Own.antt =====
-- What an agent reads.
use deko.Prelude.{
  ◌≡◌, refl, sym, String, Bool, true, false, Option, none, some, List, [], ◌∷◌, Bool-cases, inl,
  inr, ◌==◌, string_eq, ==_sound, if◌then◌else◌,
}
use deko.Json.{Value}
use deko.Models.{Action, Verdict}
use deko.Errors.{ok, ok-injective, err-ne-ok, not_found, forbidden}
use deko.Platform.{Platform}
use deko.World.{World, Agent, M, pure, raise, select, statement, require, ◌>>=◌}
use deko.VerdictService.Process.{find_action}
use deko.Actions.Forward.{find_verdict}
use deko.Actions.Read.{
  ActionDetailResponse, detail, response_if, for_owner, get_action, status_answer,
  get_action_status,
}

module _ (P : Platform) (id : String) (agent : Agent) {A : Type 0}
    (f : Action → Option Verdict → A) where
  -- The answer is made of the stored action, which is the agent's, and its stored verdict.
  abbrev pub IsOwn : World P.Number → A → Type 0
  IsOwn w d =
      (action : Action) × (find_action id w.tables ≡ some action)
      × (action.agent_id ≡ agent.id)
      × (d ≡ f action (find_verdict id w.tables))

  read_verdict : Action → M P.Number A
  read_verdict action = select (find_verdict id) >>= (λ verdict. pure (f action verdict))

  verdict_with :
      (w : World P.Number) (fs : List Bool) (action : Action) (d : A)
      → (read_verdict action (record w { faults = fs })).0 ≡ ok d
      → d ≡ f action (find_verdict id w.tables)
  unfolding read_verdict select statement pure ◌>>=◌
  verdict_with w (true ∷ fs) action d e = absurd (err-ne-ok e)
  verdict_with w [] action d e = sym (ok-injective e)
  verdict_with w (false ∷ fs) action d e = sym (ok-injective e)

  found_with :
      (w : World P.Number) (fs : List Bool) (o : Option Action) (d : A)
      → find_action id w.tables ≡ o
      → ((require (not_found "Action not found") o >>= λ action.
            if action.agent_id == agent.id
            then read_verdict action
            else raise (forbidden "Action belongs to another agent"))
          (record w { faults = fs })).0
        ≡ ok d
      → IsOwn w d
  unfolding require raise pure ◌>>=◌
  found_with w fs none d found e = absurd (err-ne-ok e)
  found_with w fs (some action) d found e = elim (Bool-cases (action.agent_id == agent.id)) [
    | inl own ↦ (
      action,
      found,
      ==_sound action.agent_id agent.id own,
      verdict_with w fs action d (rw own at e),
    )
    | inr other ↦ absurd (err-ne-ok (rw other at e))
  ]

  owned_with :
      (w : World P.Number) (fs : List Bool) (d : A)
      → (for_owner P id agent read_verdict (record w { faults = fs })).0 ≡ ok d
      → IsOwn w d
  unfolding for_owner select statement ◌>>=◌
  owned_with w (true ∷ fs) d e = absurd (err-ne-ok e)
  owned_with w [] d e = found_with w [] (find_action id w.tables) d refl e
  owned_with w (false ∷ fs) d e = found_with w fs (find_action id w.tables) d refl e

-- An agent that reads an action is the agent who submitted it, and is shown the stored action with
-- its stored verdict, if there is one.
pub get_action-IsOwn :
    (P : Platform) (id : String) (agent : Agent) (w : World P.Number)
    (d : ActionDetailResponse P.Number)
    → (get_action P id agent w).0 ≡ ok d
    → IsOwn P id agent (λ action verdict. detail P action (response_if verdict)) w d
unfolding get_action read_verdict
get_action-IsOwn P id agent w d e =
    owned_with P id agent (λ action verdict. detail P action (response_if verdict)) w w.faults d e

pub get_action_status-IsOwn :
    (P : Platform) (id : String) (agent : Agent) (w : World P.Number) (d : Value P.Number × Bool)
    → (get_action_status P id agent w).0 ≡ ok d
    → IsOwn P id agent (status_answer P id) w d
unfolding get_action_status read_verdict
get_action_status-IsOwn P id agent w d e = owned_with P id agent (status_answer P id) w w.faults d e
