-- ===== src/Security.antt =====
-- security/: capability tokens and the audit trail.
pub mod Capabilities
pub mod Ledger
