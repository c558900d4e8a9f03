-- ===== src/System/Services.antt =====
-- Submissions, the processor and the overrides, under a relation that allows the changes of the
-- entry points.
use deko.Prelude.{
  ℕ, suc, ◌≡◌, refl, ◌⊎◌, inl, inr, String, Bool, Option, none, some, List, [], ◌∷◌, ◌++◌, map,
  arith, string_eq,
}
use deko.Models.{Action, ActionStatus}
use deko.Net.{Url}
use deko.Platform.{Platform}
use deko.Audit.Steps.{Keeps-record_entry, Keeps-insert_chained_tx}
use deko.World.{World, Agent, execute, pure}
use deko.World.Steps.{
  Keeps, IsStep, keeps_rules, Keeps-bind, Keeps-execute, Keeps-statement, Keeps-if, Keeps-gets,
  Keeps-pure,
}
use deko.VerdictService.{Service}
use deko.VerdictService.Process.{set_status_at, process_action}
use deko.VerdictService.Whole.{Keeps-process_action}
use deko.Processor.{
  expire_before, expire_stale_actions, deny_failed, process_one, process_ids, process_pending,
  round,
}
use deko.Actions.Create.{
  CreateActionRequest, new_action, insert_action, unless_existing, by_idempotency_key, if_permitted,
  create_action,
}
use deko.Actions.Batch.{Created, batch_action, batch_one, batch_loop, batch_create_actions}
use deko.Admin.Form as Form
use deko.Admin.Api as Api
use deko.System.Rules.{submitted, Allows}
use deko.System.Relays.{submitted-set_status}

submitted-set_status_at :
    (id : String) (s : ActionStatus) (now : String) (actions : List Action)
    → map submitted (set_status_at id s now actions) ≡ map submitted actions
unfolding set_status_at
submitted-set_status_at id s now [] = refl
submitted-set_status_at id s now (a ∷ actions) =
    ground (arith, submitted-set_status_at id s now actions)

submitted-expire_before :
    (cutoff now : String) (actions : List Action)
    → map submitted (expire_before cutoff now actions) ≡ map submitted actions
unfolding expire_before
submitted-expire_before cutoff now [] = refl
submitted-expire_before cutoff now (a ∷ actions) =
    ground (arith, submitted-expire_before cutoff now actions)

submitted-approve_matching :
    (P : Platform) (id now : String) (actions : List Action)
    → map submitted (Form.approve_matching P id now actions) ≡ map submitted actions
submitted-approve_matching P id now [] = refl
submitted-approve_matching P id now (a ∷ actions) =
    ground (arith, submitted-approve_matching P id now actions)

module _ (P : Platform) (R : World P.Number → World P.Number → Type 0) (S : IsStep R)
    (allows : Allows P R S) where
  Keeps-status_at :
      (id : String) (s : ActionStatus) (now : String)
      → Keeps R (execute (λ t. record t { actions = set_status_at id s now t.actions }))
  Keeps-status_at id s now =
      Keeps-execute R S _
        (λ w. allows.statuses w _ (submitted-set_status_at id s now w.tables.actions))

  Keeps-processed : (svc : Service P.F64) (id : String) → Keeps R (process_action P svc id)
  Keeps-processed svc id =
      Keeps-process_action P R S svc allows.memory allows.entry id
        (λ w s. allows.statuses w _ (submitted-set_status id s w.tables.actions))
        (λ w s now. allows.statuses w _ (submitted-set_status_at id s now w.tables.actions))
        (λ d w v same dec. allows.verdict w v)

  module _ (svc : Service P.F64) where
    Keeps-deny_failed :
        (id : String) (done : Option (Unit {0})) → Keeps R (deny_failed P svc id done)
    Keeps-deny_failed id none = search (keeps_rules, S, Keeps-status_at)
    Keeps-deny_failed id (some done) = search (keeps_rules, S)

    Keeps-process_one : (id : String) → Keeps R (process_one P svc id)
    unfolding process_one
    Keeps-process_one id = search (keeps_rules, S, Keeps-processed, Keeps-deny_failed)

    Keeps-process_ids :
        (shutdown : ℕ → Bool) (n : ℕ) (ids : List String)
        → Keeps R (process_ids P svc shutdown n ids)
    unfolding process_ids
    Keeps-process_ids shutdown n [] = search (keeps_rules, S)
    Keeps-process_ids shutdown n (id ∷ ids) =
        Keeps-if R S (shutdown n) (pure tt) _ (λ stop. Keeps-pure R S tt)
          (λ go.
            Keeps-bind R S _ _ (Keeps-process_one id)
              (λ done. Keeps-process_ids shutdown (suc n) ids))

    Keeps-expired :
        (cutoff now : String)
        → Keeps R (execute (λ t. record t { actions = expire_before cutoff now t.actions }))
    Keeps-expired cutoff now =
        Keeps-execute R S _
          (λ w. allows.statuses w _ (submitted-expire_before cutoff now w.tables.actions))

    pub Keeps-round :
        (shutdown : ℕ → Bool) (ttl batch_size : ℕ) → Keeps R (round P svc shutdown ttl batch_size)
    unfolding round process_pending expire_stale_actions
    Keeps-round shutdown ttl batch_size =
        search (keeps_rules, S, Keeps-process_ids, Keeps-expired) depth 8

  module _ (url_error : String) (agent : Agent) (req : CreateActionRequest P.Number) where
    Keeps-inserted :
        (id now : String)
        → Keeps R (
            execute (λ t. record t {
              actions = t.actions ++ (new_action P url_error agent req id now ∷ []);
            }))
    Keeps-inserted id now = Keeps-execute R S _ (λ w. allows.action w _ refl)

    Keeps-insert_action : Keeps R (insert_action P url_error agent req)
    unfolding insert_action
    Keeps-insert_action =
        search (keeps_rules, S, Keeps-inserted, Keeps-record_entry P R S allows.entry) depth 8

    Keeps-unless_existing : (o : Option Action) → Keeps R (unless_existing P url_error agent req o)
    unfolding unless_existing
    Keeps-unless_existing none = Keeps-insert_action
    Keeps-unless_existing (some a) = search (keeps_rules, S)

    Keeps-by_idempotency_key :
        (key : Option String) → Keeps R (by_idempotency_key P url_error agent req key)
    unfolding by_idempotency_key
    Keeps-by_idempotency_key none = Keeps-insert_action
    Keeps-by_idempotency_key (some key) = search (keeps_rules, S, Keeps-unless_existing)

    Keeps-if_permitted :
        (checked : Option (String ⊎ Url)) → Keeps R (if_permitted P url_error agent req checked)
    unfolding if_permitted
    Keeps-if_permitted none = Keeps-by_idempotency_key _
    Keeps-if_permitted (some (inl e)) = search (keeps_rules, S)
    Keeps-if_permitted (some (inr url)) = Keeps-by_idempotency_key _

    pub Keeps-create_action : Keeps R (create_action P url_error agent req)
    unfolding create_action
    Keeps-create_action = search (keeps_rules, S, Keeps-if_permitted)

  module _ (agent : Agent) where
    Keeps-batch_inserted :
        (req : CreateActionRequest P.Number) (id now : String)
        → Keeps R (
            execute
              (λ t. record t { actions = t.actions ++ (batch_action P agent req id now ∷ []) }))
    Keeps-batch_inserted req id now = Keeps-execute R S _ (λ w. allows.action w _ refl)

    Keeps-batch_one : (req : CreateActionRequest P.Number) → Keeps R (batch_one P agent req)
    unfolding batch_one
    Keeps-batch_one req =
        search (keeps_rules, S, Keeps-batch_inserted, Keeps-record_entry P R S allows.entry) depth 8

    Keeps-batch_loop :
        (reqs : List (CreateActionRequest P.Number)) (results : List Created)
        → Keeps R (batch_loop P agent reqs results)
    unfolding batch_loop
    Keeps-batch_loop [] results = search (keeps_rules, S)
    Keeps-batch_loop (req ∷ reqs) results =
        Keeps-bind R S _ _ (Keeps-batch_one req) (λ done. Keeps-batch_loop reqs _)

    pub Keeps-batch_create_actions :
        (reqs : List (CreateActionRequest P.Number)) → Keeps R (batch_create_actions P agent reqs)
    unfolding batch_create_actions
    Keeps-batch_create_actions reqs = search (keeps_rules, S, Keeps-batch_loop)

  Keeps-override_store :
      (id reason : String) (previous : ActionStatus)
      → Keeps R (Form.store_override P id reason previous)
  unfolding Form.store_override
  Keeps-override_store id reason previous =
      search (keeps_rules, S, Keeps-status_at, Keeps-insert_chained_tx P R S allows.entry)

  Keeps-form_found :
      (id reason : String) (action : Action) → Keeps R (Form.override_found P id reason action)
  unfolding Form.override_found
  Keeps-form_found id reason action = search (keeps_rules, S, Keeps-override_store)

  pub Keeps-form :
      (confirmed : Bool) (id reason : String) → Keeps R (Form.override_action P confirmed id reason)
  unfolding Form.override_action
  Keeps-form confirmed id reason = search (keeps_rules, S, Keeps-form_found) depth 8

  Keeps-record_if_updated :
      (id reason : String) (n overridden : ℕ)
      → Keeps R (Form.record_if_updated P id reason n overridden)
  unfolding Form.record_if_updated
  Keeps-record_if_updated id reason n overridden =
      search (keeps_rules, S, Keeps-record_entry P R S allows.entry)

  Keeps-bulk_loop :
      (reason : String) (ids : List String) (overridden : ℕ)
      → Keeps R (Form.bulk_loop P reason ids overridden)
  unfolding Form.bulk_loop
  Keeps-bulk_loop reason [] overridden = search (keeps_rules, S)
  Keeps-bulk_loop reason (id ∷ ids) overridden = Keeps-bind R S _ _ (Keeps-gets R S _) (λ now.
      Keeps-bind R S _ _
        (Keeps-statement R S _
          (λ w. allows.statuses w _ (submitted-approve_matching P id now w.tables.actions)))
        (λ n.
          Keeps-bind R S _ _ (Keeps-record_if_updated id reason n overridden)
            (Keeps-bulk_loop reason ids)))

  pub Keeps-bulk :
      (confirmed : Bool) (ids : List String) (reason : String)
      → Keeps R (Form.bulk_override_actions P confirmed ids reason)
  unfolding Form.bulk_override_actions
  Keeps-bulk confirmed ids reason = search (keeps_rules, S, Keeps-bulk_loop) depth 8

  Keeps-apply_status :
      (id decision reason : String) (previous : ActionStatus) (target : String ⊎ ActionStatus)
      → Keeps R (Api.apply_status P id decision reason previous target)
  unfolding Api.apply_status
  Keeps-apply_status id decision reason previous (inl message) = search (keeps_rules, S)
  Keeps-apply_status id decision reason previous (inr status) =
      search (keeps_rules, S, Keeps-status_at, Keeps-record_entry P R S allows.entry)

  pub Keeps-api : (id decision reason : String) → Keeps R (Api.override_action P id decision reason)
  unfolding Api.override_action Api.override_found
  Keeps-api id decision reason = search (keeps_rules, S, Keeps-apply_status) depth 8
