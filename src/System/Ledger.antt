-- ===== src/System/Ledger.antt =====
-- The ledger that the program promises: what was submitted, decided and recorded is only added to.
use deko.Prelude.{◌≡◌, refl, sym, ap, String, List, [], ◌∷◌, ◌++◌, map, Option}
use mathlib.Core.Path.{subst}
use deko.Models.{Action, Verdict}
use deko.Platform.{Platform}
use deko.Audit.Chain.{AuditRow, current_head, chained_row}
use deko.World.{World}
use deko.World.Steps.{IsStep}
use deko.Attachments.Steps.{Keeps-upload_attachment}
use deko.System.Rules.{submitted, Allows}
use deko.System.Services.{
  Keeps-round, Keeps-create_action, Keeps-batch_create_actions, Keeps-form, Keeps-bulk, Keeps-api,
}
use deko.System.Relays.{Keeps-forward_action}
use deko.System.Accounts.{
  Keeps-agent_auth_middleware, Keeps-exchange_token, Keeps-register_agent, Keeps-revoke_agent,
  Keeps-create_api_key, Keeps-create_policy, Keeps-update_policy, Keeps-delete_policy,
  Keeps-rotate_agent_key, Keeps-create, Keeps-validate, Keeps-delete, Keeps-purge_expired,
}
use deko.System.{
  Op, submit, submit_batch, forward, process, override_form, override_bulk, override_api,
  authenticate, exchange, register, revoke, create_key, rotate_key, log_in, check_session, log_out,
  purge, add_policy, change_policy, remove_policy, upload, perform, run,
}

-- The submissions, without what becomes of them, the verdicts, and the entries of the log.
pub record Ledger : Type 0 where
  pub submissions : List Action
  pub verdicts : List Verdict
  pub entries : List AuditRow

abbrev pub ledger_of : {N : Type 0} → World N → Ledger
ledger_of w = record {
  submissions = map submitted w.tables.actions;
  verdicts = w.tables.verdicts;
  entries = w.tables.audit_log;
}

module _ (P : Platform) where
  -- One step of the ledger: a submission, a verdict, or an entry chained to the last one.
  pub data Posts : Ledger → Ledger → Type 0 where
    post_submission :
        {l : Ledger} (a : Action) → Posts l (record l { submissions = l.submissions ++ (a ∷ []) })
    post_verdict :
        {l : Ledger} (v : Verdict) → Posts l (record l { verdicts = l.verdicts ++ (v ∷ []) })
    post_entry :
        {l : Ledger} (id : String) (action_id : Option String)
        (event_type details created_at : String)
        → Posts l (record l {
          entries =
              l.entries
              ++ (chained_row P (current_head l.entries) id action_id event_type details created_at
                  ∷ []);
        })

  pub data PostsAll : Ledger → Ledger → Type 0 where
    none_posted : {l : Ledger} → PostsAll l l
    then_post : {l m n : Ledger} → PostsAll l m → Posts m n → PostsAll l n

  PostsAll-trans : {l m n : Ledger} → PostsAll l m → PostsAll m n → PostsAll l n
  PostsAll-trans h none_posted = h
  PostsAll-trans h (then_post k p) = then_post (PostsAll-trans h k) p

  -- The worlds' ledgers differ by postings.
  abbrev LedgerGrows : World P.Number → World P.Number → Type 0
  LedgerGrows u v = PostsAll (ledger_of u) (ledger_of v)

  LedgerGrows-IsStep : IsStep LedgerGrows
  LedgerGrows-IsStep = record {
    same = λ w fs n. none_posted;
    trans = λ u v w h k. PostsAll-trans h k;
    back = λ u v h. none_posted;
  }

  map-snoc :
      (actions : List Action) (a : Action)
      → map submitted actions ++ (submitted a ∷ []) ≡ map submitted (actions ++ (a ∷ []))
  map-snoc [] a = refl
  map-snoc (x ∷ actions) a = ap (λ xs. submitted x ∷ xs) (map-snoc actions a)

  abbrev with_submissions : Ledger → List Action → Ledger
  with_submissions l submissions = record l { submissions = submissions }

  LedgerGrows-Allows : Allows P LedgerGrows LedgerGrows-IsStep
  LedgerGrows-Allows = record {
    entry = λ w id action_id event_type details created_at.
        then_post none_posted (post_entry id action_id event_type details created_at);
    memory = λ w m healthy requests broadcasts webhooks. none_posted;
    statuses = λ w actions same.
        subst (λ xs. PostsAll (ledger_of w) (with_submissions (ledger_of w) xs)) (sym same)
          none_posted;
    verdict = λ w v. then_post none_posted (post_verdict v);
    action = λ w a fresh.
        subst (λ xs. PostsAll (ledger_of w) (with_submissions (ledger_of w) xs))
          (map-snoc w.tables.actions a) (then_post none_posted (post_submission (submitted a)));
    accounts = λ w agents keys sessions policies. none_posted;
    relays = λ w requests. none_posted;
  }

  perform-LedgerGrows :
      (op : Op P.Number P.F64) (w : World P.Number) → LedgerGrows w (perform P op w)
  unfolding perform
  perform-LedgerGrows (submit url_error agent req) w =
      (Keeps-create_action P LedgerGrows LedgerGrows-IsStep LedgerGrows-Allows url_error agent
          req).at
        w
  perform-LedgerGrows (submit_batch agent reqs) w =
      (Keeps-batch_create_actions P LedgerGrows LedgerGrows-IsStep LedgerGrows-Allows agent reqs).at
        w
  perform-LedgerGrows (add_policy req) w =
      (Keeps-create_policy P LedgerGrows LedgerGrows-IsStep LedgerGrows-Allows req).at w
  perform-LedgerGrows (change_policy id req) w =
      (Keeps-update_policy P LedgerGrows LedgerGrows-IsStep LedgerGrows-Allows id req).at w
  perform-LedgerGrows (remove_policy id) w =
      (Keeps-delete_policy P LedgerGrows LedgerGrows-IsStep LedgerGrows-Allows id).at w
  perform-LedgerGrows (upload host agent action_id fields) w =
      (Keeps-upload_attachment P LedgerGrows LedgerGrows-IsStep host agent action_id
          (λ w n name bytes. none_posted) (λ w row name on clean path. none_posted) fields).at
        w
  perform-LedgerGrows (forward answer url_error id agent_id) w =
      (Keeps-forward_action P LedgerGrows LedgerGrows-IsStep LedgerGrows-Allows answer url_error id
          agent_id).at
        w
  perform-LedgerGrows (process svc shutdown ttl batch_size) w =
      (Keeps-round P LedgerGrows LedgerGrows-IsStep LedgerGrows-Allows svc shutdown ttl
          batch_size).at
        w
  perform-LedgerGrows (override_form confirmed id reason) w =
      (Keeps-form P LedgerGrows LedgerGrows-IsStep LedgerGrows-Allows confirmed id reason).at w
  perform-LedgerGrows (override_bulk confirmed ids reason) w =
      (Keeps-bulk P LedgerGrows LedgerGrows-IsStep LedgerGrows-Allows confirmed ids reason).at w
  perform-LedgerGrows (override_api id decision reason) w =
      (Keeps-api P LedgerGrows LedgerGrows-IsStep LedgerGrows-Allows id decision reason).at w
  perform-LedgerGrows (authenticate validate_token secret path bearer api_key) w =
      (Keeps-agent_auth_middleware P LedgerGrows LedgerGrows-IsStep LedgerGrows-Allows
          validate_token secret path bearer api_key).at
        w
  perform-LedgerGrows (exchange secret header) w =
      (Keeps-exchange_token P LedgerGrows LedgerGrows-IsStep LedgerGrows-Allows secret header).at w
  perform-LedgerGrows (register secret admin name) w =
      (Keeps-register_agent P LedgerGrows LedgerGrows-IsStep LedgerGrows-Allows secret admin
          name).at
        w
  perform-LedgerGrows (revoke admin agent_id reason) w =
      (Keeps-revoke_agent P LedgerGrows LedgerGrows-IsStep LedgerGrows-Allows admin agent_id
          reason).at
        w
  perform-LedgerGrows (create_key secret admin agent_id label) w =
      (Keeps-create_api_key P LedgerGrows LedgerGrows-IsStep LedgerGrows-Allows secret admin
          agent_id label).at
        w
  perform-LedgerGrows (rotate_key secret admin) w =
      (Keeps-rotate_agent_key P LedgerGrows LedgerGrows-IsStep LedgerGrows-Allows {A = Unit {0}}
          secret admin).at
        w
  perform-LedgerGrows (log_in identity) w =
      (Keeps-create P LedgerGrows LedgerGrows-IsStep LedgerGrows-Allows identity).at w
  perform-LedgerGrows (check_session token) w =
      (Keeps-validate P LedgerGrows LedgerGrows-IsStep LedgerGrows-Allows token).at w
  perform-LedgerGrows (log_out token) w =
      (Keeps-delete P LedgerGrows LedgerGrows-IsStep LedgerGrows-Allows token).at w
  perform-LedgerGrows purge w =
      (Keeps-purge_expired P LedgerGrows LedgerGrows-IsStep LedgerGrows-Allows).at w

-- The program refines an append-only ledger: whatever entry points run, in whatever order, and
-- whatever statements fail, the ledger of the world after them is reached from the one before by
-- postings, each of which adds one submission, one verdict, or one entry chained to the head of the
-- log.
pub run-PostsAll :
    (P : Platform) (ops : List (Op P.Number P.F64)) (w : World P.Number)
    → PostsAll P (ledger_of w) (ledger_of (run P ops w))
unfolding run
run-PostsAll P [] w = none_posted
run-PostsAll P (op ∷ ops) w =
    PostsAll-trans P (perform-LedgerGrows P op w) (run-PostsAll P ops (perform P op w))
