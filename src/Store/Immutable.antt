-- ===== src/Store/Immutable.antt =====
-- store/immutable.py: the tree of hashes of the append-only partition. `Merkle` has its root and the
-- proofs of inclusion; the other modules prove.
pub mod Merkle
pub mod Proving
pub mod Binding
mod Tests
