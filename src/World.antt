-- ===== src/World.antt =====
-- The state that the services share: the tables of the database, and what the process holds beside
-- them. A service is a function of this state. Each SQL statement may fail: `faults` says of the
-- statements to come which do (past its end none does). The clock stands still during a call.
pub mod Steps
pub mod Success
use deko.Prelude.{ℕ, ◌+◌, String, Bool, true, false, Option, none, some, List, [], ◌∷◌}
use deko.Prelude.Int.{ℤ}
use deko.Models.{Action, Verdict, Policy, Attachment}
use deko.Audit.Chain.{AuditRow}
use deko.Errors.{AppError, database, Result, ok, err}

-- models/agent.rs, with the column `webhook_url`. The expiry of the own key is the time that sqlx
-- decodes; a statement that meets a text it cannot decode fails, as any statement may.
pub record Agent : Type 0 where
  pub id : String
  pub name : String
  pub api_key_hash : String
  pub active : Bool
  pub created_at : String
  pub deactivated_reason : Option String
  pub deactivated_at : Option String
  pub api_key_expires_at : Option ℤ
  pub webhook_url : Option String

pub record ApiKey : Type 0 where
  pub id : String
  pub agent_id : String
  pub key_hash : String
  pub label : String
  pub active : Bool
  pub created_at : String
  pub expires_at : Option String

pub record PolicyRow (N : Type 0) : Type 0 where
  pub policy : Policy N
  pub activate_at : Option String
  pub deactivate_at : Option String

pub record Session : Type 0 where
  pub id : String
  pub identity : String
  pub expires_at : String

pub record Tables (N : Type 0) : Type 0 where
  pub agents : List Agent
  pub api_keys : List ApiKey
  pub actions : List Action
  pub verdicts : List Verdict
  pub policies : List (PolicyRow N)
  pub sessions : List Session
  pub audit_log : List AuditRow
  pub attachments : List Attachment

-- The counters of `MetricsCollector` that the services move; they are `AtomicU64` and wrap.
pub record Metrics : Type 0 where
  pub actions_total : ℕ
  pub actions_approved : ℕ
  pub actions_denied : ℕ
  pub actions_escalated : ℕ
  pub llm_calls_total : ℕ
  pub llm_errors : ℕ
  pub llm_latency_ms : ℕ

-- A request that is relayed to the target of an action.
pub record Request : Type 0 where
  pub url : String
  pub method : String
  pub body : String

-- A webhook request.
pub record Delivery : Type 0 where
  pub url : String
  pub body : String
  pub signature : Option String

pub record World (N : Type 0) : Type 0 where
  pub tables : Tables N
  pub faults : List Bool
  -- how many ids were drawn, and the time in seconds
  pub uuids : ℕ
  pub clock : ℕ
  pub metrics : Metrics
  pub provider_healthy : Bool
  -- the latency and the tokens of each request to a provider, the messages of the broadcaster, and
  -- the webhook requests that were sent, oldest first
  pub llm_requests : List (ℕ × ℕ)
  pub broadcasts : List String
  pub webhooks : List Delivery
  -- the requests to targets, oldest first
  pub relayed : List Request
  -- the uploaded files, by their names, the newest first
  pub files : List (String × List ℕ)

abbrev pub M : Type 0 → Type 0 → Type 0
M N A = World N → Result A × World N

-- Does the next statement fail, and the faults after it.
abbrev pub fails : List Bool → Bool
fails [] = false
fails (b ∷ bs) = b

abbrev pub later : List Bool → List Bool
later [] = []
later (b ∷ bs) = bs

abbrev pub dropped {ℓ} : {A : Type ℓ} → Result A → Option A
dropped (ok a) = some a
dropped (err e) = none

-- `w` with the tables of `before`, as a rollback leaves them.
abbrev pub rollback : {N : Type 0} → World N → World N → World N
rollback before w = record w { tables = before.tables }

module _ {N A : Type 0} where
  unfoldable pub pure : A → M N A
  pure a w = (ok a, w)

  unfoldable pub raise : AppError → M N A
  raise e w = (err e, w)

  unfoldable pub gets : (World N → A) → M N A
  gets f w = (ok (f w), w)

  abbrev pub resolve : Bool → A × Tables N → World N → Result A × World N
  resolve true _ w = (err database, w)
  resolve false (a, t) w = (ok a, record w { tables = t })

  -- One SQL statement. If it fails it changes nothing.
  unfoldable pub statement : (Tables N → A × Tables N) → M N A
  statement f w = resolve (fails w.faults) (f w.tables) (record w { faults = later w.faults })

  -- `SELECT`
  unfoldable pub select : (Tables N → A) → M N A
  unfolding statement
  select f = statement (λ t. (f t, t))

  -- `.await.ok()`: an error is dropped, what was done stays done.
  unfoldable pub attempt : M N A → M N (Option A)
  attempt m w = let (r, w') = m w in (ok (dropped r), w')

  abbrev pub settle : Bool → World N → A → World N → Result A × World N
  settle true before a w = (err database, rollback before w)
  settle false before a w = (ok a, w)

  -- `tx.commit()` after a block that returned, a rollback after one that did not.
  abbrev pub commit : World N → Result A → World N → Result A × World N
  commit before (err e) w = (err e, rollback before w)
  commit before (ok a) w = settle (fails w.faults) before a (record w { faults = later w.faults })

  abbrev pub begin : Bool → M N A → World N → Result A × World N
  begin true m w = (err database, w)
  begin false m w = let (r, w') = m w in commit w r w'

  -- `pool.begin()`, the block, `tx.commit()`: an early return drops the transaction.
  unfoldable pub transaction : M N A → M N A
  transaction m w = begin (fails w.faults) m (record w { faults = later w.faults })

module _ {N A B : Type 0} where
  abbrev pub continue : Result A → (A → M N B) → M N B
  continue (ok a) f w = f a w
  continue (err e) f w = (err e, w)

  infixl 5 ◌>>=◌ ◌>>◌
  unfoldable pub ◌>>=◌ : M N A → (A → M N B) → M N B
  ◌>>=◌ m f w = let (r, w') = m w in continue r f w'

  abbrev pub ◌>>◌ : M N A → M N B → M N B
  m >> n = m >>= λ _. n

module _ {N : Type 0} where
  unfoldable pub execute : (Tables N → Tables N) → M N (Unit {0})
  unfolding statement
  execute f = statement (λ t. (tt, f t))

  -- A change of what the process holds.
  unfoldable pub update : (World N → World N) → M N (Unit {0})
  update f w = (ok tt, f w)

  -- The next uuid's number.
  unfoldable pub draw : M N ℕ
  draw w = (ok w.uuids, record w { uuids = w.uuids + 1 })

-- `Some(x).ok_or_else(…)?`
unfoldable pub require : {N A : Type 0} → AppError → Option A → M N A
unfolding raise pure
require e none = raise e
require e (some a) = pure a

-- `if let Some(x) = … { … }`, and `match` on an option that answers at once without a value
unfoldable pub for_some : {N A B : Type 0} → Option A → B → (A → M N B) → M N B
unfolding pure
for_some none b f = pure b
for_some (some a) b f = f a

-- A value that was found ends a loop.
unfoldable pub or_try : {N A : Type 0} → Option A → M N (Option A) → M N (Option A)
unfolding pure
or_try none m = m
or_try (some a) m = pure (some a)
