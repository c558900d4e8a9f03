-- ===== src/Actions.antt =====
-- routes/actions.rs: submitting an action and forwarding an approved one to its target. Create is
-- create_action, Forward the handler of the relay, Relay is execute_forwarded_request, Transform the
-- rewriting of the response; the other modules hold proofs.
pub mod Relay
pub mod Transform
pub mod Forward
pub mod Create
pub mod Batch
pub mod Read
pub mod Own
pub mod Submitted
pub mod Idempotent
pub mod Sent
pub mod Hops
pub mod Guarded
