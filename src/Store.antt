-- ===== src/Store.antt =====
-- The data layer: caches and the object store (store/sos.py), and the parts
-- that stand on it.
pub mod Lru
pub mod Paths
pub mod Lines
pub mod Sos
pub mod Immutable
pub mod Schema
pub mod Bloom
pub mod Eventsource
pub mod Waq
pub mod Branches
