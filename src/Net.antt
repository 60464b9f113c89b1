-- ===== src/Net.antt =====
-- net/: replication between machines, circuit breakers and rate limits.
pub mod Crdt
pub mod Resilience
