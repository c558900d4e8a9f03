-- ===== src/Lib.antt =====
-- Verification library for deko, the watchdog between autonomous agents and the targets of their
-- actions. An agent submits an action; the processor hands the pending ones to the verdict service,
-- which runs the policies, scans for prompt injection and asks a model; the verdict is stored
-- together with the new status and an entry of the audit log, and goes to webhooks and dashboards.
--
-- Which file models what:
--   Models          src/models/: the enumerations and the rows
--   Errors          src/error.rs: AppError, its text and its HTTP answer
--   PolicyEngine    src/services/policy_engine.rs: Sorting is sort_rules, Rules is evaluate_simple
--                   with one function for each rule type, Evaluate is evaluate_rule and the
--                   composite rules, read along their JSON
--   Audit           src/services/audit.rs: Chain has the table and the operations on it as
--                   functions on lists of rows, Record the writes inside a transaction
--   World           the database and what the process holds beside it, as one record; a service is
--                   a function from a world to a result and a world. Each SQL statement, each BEGIN
--                   and each COMMIT may fail, as the list `faults` says; a transaction that does
--                   not commit restores the tables. World.Steps has the rules by which a relation
--                   between the worlds before and after is carried through a service
--   Llm             src/services/llm.rs and LLMProvider of src/config.rs
--   Injection       src/services/prompt_injection.rs
--   Egress, Net     src/services/egress.rs, and the addresses and URLs it reads
--   Webhook         src/services/webhook.rs
--   VerdictService  src/services/verdict.rs: Policies is evaluate_policies, Limits its second loop,
--                   Analysis is try_llm_analysis, Process is save_verdict and process_action
--   Processor       src/services/processor.rs: a round of the loop
--   Session         src/services/session.rs
--   Auth            src/middleware/auth.rs and src/routes/token.rs, from the credentials on; Token is
--                   how they are read, and src/middleware/jwt.rs
--   Actions         src/routes/actions.rs: Create is create_action, Batch batch_create_actions, Read
--                   the reads, Forward forward_action, Relay its attempts and redirects, as a
--                   recursion on those that are left, Transform the rewriting of the response
--   RateLimiter     the rate limiter of src/services/metrics.rs
--   Admin           Login is login, logout and the check of an administrator in
--                   src/routes/admin.rs; the overrides: Form of src/routes/admin.rs, Api of
--                   src/routes/api_admin.rs
--   Config          src/config.rs: the variables, the profiles and the checks
--   Providers       src/services/providers/provider.rs: Prompt the texts, Wire the requests as JSON,
--                   Answer the reading of the answers, Send the HTTP helpers, Call the seven calls
--   Keys            src/routes/auth.rs: agents and their keys
--   PolicyRoutes    src/routes/policies.rs
--   Attachments     src/services/attachment.rs and src/routes/attachments.rs
--   System          the entry points of src/routes/mod.rs and the processor as operations on one
--                   world, and runs of them; Rules says what a relation has to allow so that all of
--                   them keep it, Ledger is what the program promises of its tables
--   Examples        a platform to run the models on, and the theorems at concrete inputs
--
-- The other modules under these hold proofs.
--
-- What is not the program's own is a field of `Platform`: serde_json's numbers, parser and printer,
-- f64, the regex, sha2, hmac, url and uuid crates, chrono's formats, the resolver, SQLite's reading
-- of JSON columns. No law of it is assumed but where a theorem names it. The answers of the HTTP
-- client, of the Bedrock SDK, of a webhook's receiver and of the file system are arguments, and so
-- are the variables of the environment. Json models the values that serde_json passes on.
--
-- Bounds and fuel: counters wrap at 2^64 as AtomicU64 does; `d as u32` is a remainder by 2^32. The
-- loops are recursions over their lists. Decimal printing runs on n + 1 rounds, and a number has at
-- most as many digits; stripping a prefix or suffix runs on the length of the text, and every round
-- shortens it. The clock stands still during a call, and one call runs at a time: interleavings of
-- two processors are not modelled. The constraints of the schema (UNIQUE, foreign keys) are not
-- spelled out: a statement that violates one fails, as any statement may.
--
-- Not modelled: HTTP routing, the listings, pages and exports of the admin panel, OAuth, redaction,
-- sockets, the file with the head of the log, migrations, start-up and logging, and the JavaScript
-- and TypeScript parts of the repository.
pub mod Prelude
pub mod Json
pub mod Net
pub mod Platform
pub mod Models
pub mod Errors
pub mod PolicyEngine
pub mod Audit
pub mod World
pub mod Llm
pub mod Injection
pub mod Egress
pub mod Webhook
pub mod VerdictService
pub mod Session
pub mod Processor
pub mod Auth
pub mod Actions
pub mod RateLimiter
pub mod Admin
pub mod Config
pub mod Providers
pub mod Keys
pub mod PolicyRoutes
pub mod Attachments
pub mod System
pub mod Examples
