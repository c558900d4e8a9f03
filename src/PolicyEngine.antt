-- ===== src/PolicyEngine.antt =====
-- services/policy_engine.rs: the evaluator of policy rules.
pub mod Rules
pub mod Sorting
pub mod Evaluate
pub mod Composite
pub mod Severity
pub mod Matching
