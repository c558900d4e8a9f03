-- ===== src/Audit.antt =====
-- services/audit.rs: the hash chain of the audit log.
pub mod Chain
pub mod Verify
pub mod Tamper
pub mod Prefix
pub mod Backfill
pub mod Legacy
pub mod Record
pub mod Steps
