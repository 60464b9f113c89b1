-- ===== src/Security/Capabilities.antt =====
-- security/capabilities.py: tokens that grant rights on a path, with delegation and revocation.
-- `Types` has the tokens and what they allow, `Methods` the store of tokens; the others prove.
pub mod Types
pub mod Methods
pub mod Cascade
pub mod Revoking
pub mod Rights
pub mod Delegating
pub mod Checking
mod Tests
