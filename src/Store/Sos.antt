-- ===== src/Store/Sos.antt =====
-- store/sos.py: the object store. `Types` has the tables and caches, `Objects` the content-addressed
-- side, `Aliases` the paths, `Files` and `Listing` reading, writing and moving through
-- paths, `History` the version chain, `Graph` links and tags. `Spec` says what a client
-- sees of the files; the other modules prove.
pub mod Types
pub mod Objects
pub mod Aliases
pub mod Files
pub mod Coherent
pub mod Storing
pub mod Writing
pub mod RoundTrip
pub mod Spec
pub mod Showing
pub mod Answering
pub mod Refining
pub mod History
pub mod Versions
pub mod Chain
pub mod Extending
pub mod Listing
pub mod Moving
pub mod Graph
pub mod Tagging
mod Tests
