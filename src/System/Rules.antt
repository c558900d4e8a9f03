-- ===== src/System/Rules.antt =====
-- What a relation between worlds has to allow so that every entry point keeps it.
use deko.Prelude.{◌≡◌, List, [], ◌∷◌, ◌++◌, map}
use deko.Models.{Action, pending, Verdict}
use deko.Platform.{Platform}
use deko.Audit.Steps.{AllowsEntry}
use deko.World.{World, Agent, ApiKey, Session, PolicyRow, Request}
use deko.World.Steps.{IsStep}
use deko.VerdictService.Keeps.{AllowsMemory}

-- An action without its status and the time of its last change.
abbrev pub submitted : Action → Action
submitted a = record a { status = pending; updated_at = "" }

pub record Allows (P : Platform) (R : World P.Number → World P.Number → Type 0) (S : IsStep R)
    : Type 0 where
  pub entry : AllowsEntry P R S
  pub memory : AllowsMemory P R S
  -- Statuses change.
  pub statuses :
      (w : World P.Number) (actions : List Action)
      → map submitted actions ≡ map submitted w.tables.actions
      → R w (record w { tables = record w.tables { actions = actions } })
  pub verdict :
      (w : World P.Number) (v : Verdict)
      → R w (record w { tables = record w.tables { verdicts = w.tables.verdicts ++ (v ∷ []) } })
  pub action :
      (w : World P.Number) (a : Action)
      → a.status ≡ pending
      → R w (record w { tables = record w.tables { actions = w.tables.actions ++ (a ∷ []) } })
  pub accounts :
      (w : World P.Number) (agents : List Agent) (keys : List ApiKey) (sessions : List Session)
      (policies : List (PolicyRow P.Number))
      → R w (record w {
        tables = record w.tables {
          agents = agents;
          api_keys = keys;
          sessions = sessions;
          policies = policies;
        };
      })
  pub relays :
      (w : World P.Number) (requests : List Request) → R w (record w { relayed = requests })
