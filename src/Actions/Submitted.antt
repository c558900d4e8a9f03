-- ===== src/Actions/Submitted.antt =====
-- What a submission stores.
use mathlib.Core.List.{append-nil, append_assoc}
use deko.Prelude.{
  ◌≡◌, refl, sym, ap, ◌∙◌, ◌⊎◌, inl, inr, String, Option, none, some, List, [], ◌∷◌, ◌++◌, All,
  All-append, ◌==◌, string_eq,
}
use deko.Prelude.Text.{trim}
use deko.Models.{Action, pending}
use deko.Net.{Url}
use deko.Platform.{Platform}
use deko.Audit.Steps.{Keeps-record_entry}
use deko.World.{World, Agent, raise}
use deko.World.Steps.{
  Keeps, IsStep, Keeps-bind, Keeps-execute, Keeps-gets, Keeps-draw, Keeps-pure, Keeps-if,
  Keeps-raise, Keeps-select,
}
use deko.Egress
use deko.Actions.Create.{
  CreateActionRequest, is_too_large, checked_target, new_action, insert_action, unless_existing,
  by_idempotency_key, if_permitted, create_action,
}

-- The new actions have the property.
abbrev pub Adds : {N : Type 0} → (Action → Type 0) → World N → World N → Type 0
Adds Q u v = (rows : List Action) × (v.tables.actions ≡ u.tables.actions ++ rows) × All Q rows

no_action :
    {Q : Action → Type 0}
    → (xs : List Action) → (rows : List Action) × (xs ≡ xs ++ rows) × All Q rows
no_action xs = ([], sym (append-nil xs), tt)

Adds-IsStep : {N : Type 0} {Q : Action → Type 0} → IsStep (Adds {N = N} Q)
Adds-IsStep {Q = Q} = record {
  same = λ w fs n. no_action w.tables.actions;
  trans = λ u v w (xs, e, h) (ys, f, k). (
    xs ++ ys,
    f ∙ (ap (λ rs. rs ++ ys) e ∙ append_assoc u.tables.actions xs ys),
    All-append Q xs ys h k,
  );
  back = λ u v h. no_action u.tables.actions;
}

module _ (P : Platform) (url_error : String) (agent : Agent)
    (req : CreateActionRequest P.Number) where
  -- Pending, of the agent, and without a target or with one that passed the guard.
  abbrev pub IsSubmitted : Action → Type 0
  IsSubmitted a =
      (a.status ≡ pending)
      × (a.agent_id ≡ agent.id)
      × (a.target_url ≡ req.target_url)
      × ((a.target_url ≡ none)
          ⊎ ((raw : String) × (url : Url) × (a.target_url ≡ some raw)
              × (Egress.parse P url_error raw ≡ inr url)))

  -- The target of the request passed the guard.
  abbrev IsPermitted : Type 0
  IsPermitted =
      (req.target_url ≡ none)
      ⊎ ((raw : String) × (url : Url) × (req.target_url ≡ some raw)
          × (Egress.parse P url_error raw ≡ inr url))

  Keeps-insert_action : IsPermitted → Keeps (Adds IsSubmitted) (insert_action P url_error agent req)
  unfolding insert_action
  Keeps-insert_action p =
      Keeps-bind (Adds IsSubmitted) Adds-IsStep _ _ (Keeps-draw (Adds IsSubmitted) Adds-IsStep)
        (λ n.
          Keeps-bind (Adds IsSubmitted) Adds-IsStep _ _
            (Keeps-gets (Adds IsSubmitted) Adds-IsStep _)
            (λ now.
              Keeps-bind (Adds IsSubmitted) Adds-IsStep _ _
                (Keeps-execute (Adds IsSubmitted) Adds-IsStep _ (λ w. (
                  new_action P url_error agent req (P.uuid n) now ∷ [],
                  refl,
                  ((refl, refl, refl, p), tt),
                )))
                (λ done.
                  Keeps-bind (Adds IsSubmitted) Adds-IsStep _ _
                    (Keeps-record_entry P (Adds IsSubmitted) Adds-IsStep
                      (λ w row action_id event_type details created_at. no_action w.tables.actions)
                      _ _ _)
                    (λ done. Keeps-pure (Adds IsSubmitted) Adds-IsStep _))))

  Keeps-unless_existing :
      (o : Option Action)
      → IsPermitted
      → Keeps (Adds IsSubmitted) (unless_existing P url_error agent req o)
  unfolding unless_existing
  Keeps-unless_existing none p = Keeps-insert_action p
  Keeps-unless_existing (some a) p = Keeps-pure (Adds IsSubmitted) Adds-IsStep _

  Keeps-by_idempotency_key :
      (key : Option String)
      → IsPermitted
      → Keeps (Adds IsSubmitted) (by_idempotency_key P url_error agent req key)
  unfolding by_idempotency_key
  Keeps-by_idempotency_key none p = Keeps-insert_action p
  Keeps-by_idempotency_key (some key) p =
      Keeps-bind (Adds IsSubmitted) Adds-IsStep _ _ (Keeps-select (Adds IsSubmitted) Adds-IsStep _)
        (λ o. Keeps-unless_existing o p)

  Keeps-permitted :
      (raw : String) (checked : String ⊎ Url)
      → req.target_url ≡ some raw
      → Egress.parse P url_error raw ≡ checked
      → Keeps (Adds IsSubmitted) (if_permitted P url_error agent req (some checked))
  unfolding if_permitted
  Keeps-permitted raw (inl e) same c = Keeps-raise (Adds IsSubmitted) Adds-IsStep _
  Keeps-permitted raw (inr url) same c =
      Keeps-by_idempotency_key req.idempotency_key (inr (raw, url, same, c))

  Keeps-if_permitted :
      (target : Option String)
      → req.target_url ≡ target
      → Keeps
          (Adds IsSubmitted)
          (if_permitted P url_error agent req (checked_target P url_error target))
  unfolding if_permitted
  Keeps-if_permitted none same = Keeps-by_idempotency_key req.idempotency_key (inl same)
  Keeps-if_permitted (some raw) same = Keeps-permitted raw _ same refl

  Keeps-create_action : Keeps (Adds IsSubmitted) (create_action P url_error agent req)
  unfolding create_action
  Keeps-create_action =
      Keeps-if (Adds IsSubmitted) Adds-IsStep (trim req.intent == "") (raise _) _
        (λ blank. Keeps-raise (Adds IsSubmitted) Adds-IsStep _)
        (λ given.
          Keeps-if (Adds IsSubmitted) Adds-IsStep (is_too_large req.screenshot_base64) (raise _) _
            (λ large. Keeps-raise (Adds IsSubmitted) Adds-IsStep _)
            (λ small. Keeps-if_permitted req.target_url refl))

-- Whatever statements fail, a submission leaves the stored actions as they are and adds at the end
-- only actions that are pending, of the agent, and without a target or with the requested one, which
-- passed the guard.
pub create_action-Adds :
    (P : Platform) (url_error : String) (agent : Agent) (req : CreateActionRequest P.Number)
    (w : World P.Number)
    → Adds (IsSubmitted P url_error agent req) w (create_action P url_error agent req w).1
create_action-Adds P url_error agent req w = (Keeps-create_action P url_error agent req).at w
