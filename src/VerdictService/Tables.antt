-- ===== src/VerdictService/Tables.antt =====
-- What processing an action leaves alone: every other action and its verdicts, and the tables of
-- the agents, keys, policies, sessions and attachments.
use deko.Prelude.{
  ◌≡◌, refl, sym, ap, ◌∙◌, String, not, List, [], ◌∷◌, ◌++◌, map, keep, arith, ◌==◌, string_eq,
}
use mathlib.Core.List.{append-nil, append_assoc}
use deko.Models.{Action, ActionStatus, Verdict}
use deko.Platform.{Platform}
use deko.Audit.Chain.{AuditRow}
use deko.World.{World, Tables}
use deko.World.Steps.{IsStep}
use deko.VerdictService.{Service}
use deko.VerdictService.Process.{set_status, set_status_at, process_action}
use deko.VerdictService.Whole.{Keeps-process_action}

-- The actions but one, and the verdicts but those of one action.
abbrev pub actions_but : String → List Action → List Action
actions_but id actions = keep (λ a. not (a.id == id)) actions

abbrev pub verdicts_but : String → List Verdict → List Verdict
verdicts_but id verdicts = keep (λ v. not (v.action_id == id)) verdicts

-- The tables agree but for the action `id`, its verdicts and new entries of the audit log.
pub record AgreesBut {N : Type 0} (id : String) (t u : Tables N) : Type 0 where
  pub other_actions : actions_but id u.actions ≡ actions_but id t.actions
  pub action_ids : map (λ a. a.id) u.actions ≡ map (λ a. a.id) t.actions
  pub other_verdicts : verdicts_but id u.verdicts ≡ verdicts_but id t.verdicts
  pub agents : u.agents ≡ t.agents
  pub api_keys : u.api_keys ≡ t.api_keys
  pub policies : u.policies ≡ t.policies
  pub sessions : u.sessions ≡ t.sessions
  pub attachments : u.attachments ≡ t.attachments
  pub log : (rows : List AuditRow) × (u.audit_log ≡ t.audit_log ++ rows)

actions_but-set_status :
    (id : String) (s : ActionStatus) (actions : List Action)
    → actions_but id (set_status id s actions) ≡ actions_but id actions
unfolding set_status
actions_but-set_status id s [] = refl
actions_but-set_status id s (a ∷ actions) = ground (arith, actions_but-set_status id s actions)

ids-set_status :
    (id : String) (s : ActionStatus) (actions : List Action)
    → map (λ a. a.id) (set_status id s actions) ≡ map (λ a. a.id) actions
unfolding set_status
ids-set_status id s [] = refl
ids-set_status id s (a ∷ actions) = ground (arith, ids-set_status id s actions)

pub actions_but-set_status_at :
    (id : String) (s : ActionStatus) (now : String) (actions : List Action)
    → actions_but id (set_status_at id s now actions) ≡ actions_but id actions
unfolding set_status_at
actions_but-set_status_at id s now [] = refl
actions_but-set_status_at id s now (a ∷ actions) =
    ground (arith, actions_but-set_status_at id s now actions)

ids-set_status_at :
    (id : String) (s : ActionStatus) (now : String) (actions : List Action)
    → map (λ a. a.id) (set_status_at id s now actions) ≡ map (λ a. a.id) actions
unfolding set_status_at
ids-set_status_at id s now [] = refl
ids-set_status_at id s now (a ∷ actions) = ground (arith, ids-set_status_at id s now actions)

verdicts_but-append :
    (id : String) (vs : List Verdict) (v : Verdict)
    → v.action_id ≡ id
    → verdicts_but id (vs ++ (v ∷ [])) ≡ verdicts_but id vs
verdicts_but-append id [] v e = ground arith
verdicts_but-append id (x ∷ vs) v e = ground (arith, verdicts_but-append id vs v e)

module _ {N : Type 0} (id : String) where
  AgreesBut-refl : (t : Tables N) → AgreesBut id t t
  AgreesBut-refl t = record {
    other_actions = refl;
    action_ids = refl;
    other_verdicts = refl;
    agents = refl;
    api_keys = refl;
    policies = refl;
    sessions = refl;
    attachments = refl;
    log = ([], sym (append-nil t.audit_log));
  }

  AgreesBut-trans : (t u v : Tables N) → AgreesBut id t u → AgreesBut id u v → AgreesBut id t v
  AgreesBut-trans t u v h k = record {
    other_actions = k.other_actions ∙ h.other_actions;
    action_ids = k.action_ids ∙ h.action_ids;
    other_verdicts = k.other_verdicts ∙ h.other_verdicts;
    agents = k.agents ∙ h.agents;
    api_keys = k.api_keys ∙ h.api_keys;
    policies = k.policies ∙ h.policies;
    sessions = k.sessions ∙ h.sessions;
    attachments = k.attachments ∙ h.attachments;
    log =
        let (xs, e) = h.log in
        let (ys, f) = k.log in
        (xs ++ ys, f ∙ (ap (λ rows. rows ++ ys) e ∙ append_assoc t.audit_log xs ys));
  }

  abbrev pub Frame : World N → World N → Type 0
  Frame u v = AgreesBut id u.tables v.tables

  pub Frame-IsStep : IsStep Frame
  Frame-IsStep = record {
    same = λ w fs n. AgreesBut-refl w.tables;
    trans = λ u v w h k. AgreesBut-trans u.tables v.tables w.tables h k;
    back = λ u v h. AgreesBut-refl u.tables;
  }

  -- Tables with other actions, verdicts and entries.
  agrees :
      (t : Tables N) (actions : List Action) (verdicts : List Verdict) (log : List AuditRow)
      → actions_but id actions ≡ actions_but id t.actions
      → map (λ a. a.id) actions ≡ map (λ a. a.id) t.actions
      → verdicts_but id verdicts ≡ verdicts_but id t.verdicts
      → (rows : List AuditRow) × (log ≡ t.audit_log ++ rows)
      → AgreesBut id t (record t { actions = actions; verdicts = verdicts; audit_log = log })
  agrees t actions verdicts log e f g grown = record {
    other_actions = e;
    action_ids = f;
    other_verdicts = g;
    agents = refl;
    api_keys = refl;
    policies = refl;
    sessions = refl;
    attachments = refl;
    log = grown;
  }

-- Whatever statements fail, processing one action leaves every other action, the verdicts on them,
-- the ids of the actions, and the agents, keys, policies, sessions and attachments as they were; the
-- entries of the audit log stay in front of what is new.
pub process_action-frame :
    (P : Platform) (svc : Service P.F64) (id : String) (w : World P.Number)
    → AgreesBut id w.tables (process_action P svc id w).1.tables
process_action-frame P svc id w =
    (Keeps-process_action P (Frame id) (Frame-IsStep id) svc
        (λ w m healthy requests broadcasts webhooks. AgreesBut-refl id w.tables)
        (λ w row action_id event_type details created_at.
          agrees id w.tables w.tables.actions w.tables.verdicts _ refl refl refl (_, refl))
        id
        (λ w s.
          agrees id w.tables _ w.tables.verdicts w.tables.audit_log
            (actions_but-set_status id s w.tables.actions) (ids-set_status id s w.tables.actions)
            refl ([], sym (append-nil w.tables.audit_log)))
        (λ w s now.
          agrees id w.tables _ w.tables.verdicts w.tables.audit_log
            (actions_but-set_status_at id s now w.tables.actions)
            (ids-set_status_at id s now w.tables.actions) refl
            ([], sym (append-nil w.tables.audit_log)))
        (λ d w v same dec.
          agrees id w.tables w.tables.actions _ w.tables.audit_log refl refl
            (verdicts_but-append id w.tables.verdicts v same)
            ([], sym (append-nil w.tables.audit_log)))).at
      w
