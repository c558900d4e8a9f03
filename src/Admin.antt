-- ===== src/Admin.antt =====
-- How an administrator overrides the status of an action: Form has the handlers of routes/admin.rs,
-- Api that of routes/api_admin.rs. Login is the
-- login of administrators and the check of it. The other modules hold proofs. The answers are the data that the
-- redirect or the JSON is made of.
pub mod Form
pub mod Api
pub mod Login
pub mod Throttle
pub mod Access
pub mod Recorded
pub mod Transitions
