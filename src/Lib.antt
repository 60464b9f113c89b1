-- ===== src/Lib.antt =====
-- DataPy.os: a user-space operating system in Python whose files are objects addressed by content.
--
-- Parts and files (paths from the repository's root):
--   * kernel/memory.py, `MemoryManager`: Kernel/Memory.antt, with the page table as a dictionary
--     from addresses to blocks. Kernel/Memory/Pages.antt and Usage.antt have the proofs.
--   * kernel/process.py, `ProcessManager`: Kernel/Process.antt, with Table.antt (spawn and kill),
--     Calls.antt (sequences of calls) and Queries.antt under Kernel/Process/.
--   * kernel/namespaces.py, `Namespace`: Kernel/Namespaces.antt, on the object store, with Resolving.antt,
--     Patched.antt and Binding.antt about it.
--   * kernel/watchdog.py: Kernel/Watchdog.antt; Quarantine.antt bounds the restarts, Outage.antt is about a
--     subsystem that stays down.
--   * kernel/scheduler.py: Kernel/Scheduler.antt, with the steps of clients and of the event loop as a
--     relation in Steps.antt, and Reaching.antt about the states that they lead to.
--   * store/sos.py, `_LRUDict`: Store/Lru.antt, with its order of keys (Order.antt) and its laws
--     (Laws.antt) under Store/Lru/.
--   * store/sos.py, `SemanticObjectStore`: Store/Sos.antt and the modules under Store/Sos/. The
--     state `Sos` has the tables `objects`, `aliases`, `links` and `tag_index` and the two caches.
--     Types.antt has the tables, Objects.antt `store` and `get`, Aliases.antt `resolve`, `alias`,
--     `unalias` and `exists`, Files.antt `read`, `write` and the directories, History.antt `history`
--     and `checkout`, Listing.antt `listdir`, `remove`, `copy`, `move`, `update` and `stat`, Graph.antt
--     `relate`, `related` and the tags. Spec.antt has the files as a client sees them, a map from
--     paths to bytes; Showing.antt, Answering.antt and Refining.antt relate it to the store.
--     Store/Paths.antt has the text operations on paths.
--   * store/immutable.py, the tree of hashes: Store/Immutable/Merkle.antt, with Proving.antt about the
--     proofs of inclusion and Binding.antt about what a root commits to.
--   * store/schema.py, `validate_against_schema`: Store/Schema/Json.antt (values and schemas) and
--     Validation.antt; Meaning.antt says what a schema means, Logic.antt, Checks.antt and
--     Deciding.antt prove that the code decides it.
--   * store/bloom.py: Store/Bloom.antt (`BloomFilter`) and Store/Bloom/Index.antt (`SOSBloomIndex`),
--     with Bits.antt, Membership.antt, Packing.antt and Asking.antt about them.
--   * store/eventsource.py: Store/Eventsource.antt, with the events of a client in Events.antt,
--     Replaying.antt and Recording.antt about `replay_to` and Rewinding.antt about `rewind`. The files
--     of lines that it and the ledger keep are in Store/Lines.antt.
--   * store/branches.py: Store/Branches.antt, with Restoring.antt about `checkout`, Merging.antt about
--     `_merge_text`, over the pieces that `difflib` finds; Walking.antt is `merge`, Keeping.antt about it.
--   * store/waq.py: Store/Waq.antt, with Flushing.antt about the flushes.
--   * security/capabilities.py, `CapabilityStore`: Security/Capabilities/Types.antt (tokens) and
--     Methods.antt, on the object store above; Cascade.antt and Revoking.antt are about `revoke`,
--     Rights.antt and Delegating.antt about `delegate`, Checking.antt about `check`.
--   * net/crdt.py, `LWWRegister` and `CRDTStore`: Net/Crdt.antt; Stamps.antt has the order of the
--     registers, Merging.antt and Converging.antt under Net/Crdt/ what merges lead to.
--   * net/resilience.py: Net/Resilience/Circuit.antt (`CircuitBreaker`), Bucket.antt
--     (`TokenBucket`) and Limiter.antt (`RateLimiter`), with Opening.antt, Rates.antt and
--     Limits.antt about them.
--   * security/ledger.py, `AuditTrail`: Security/Ledger.antt, on the contents of the two files that
--     the trail keeps in the object store; Lines.antt has the lines of the chain file, Chain.antt
--     the chain of hashes and Verifying.antt `verify`, under Security/Ledger/.
-- The operations of the store go through the caches and fill them as the code does; the abstract
-- view is `target`, the object that the alias table gives a path.
--
-- Conventions: a method becomes a function from its arguments and the state to its result and the
-- new state. A method that raises returns `err` with the state it leaves. Clock readings and random
-- numbers are arguments. Texts are lists of code points. SHA-256 and the encoding of texts are the
-- fields of `Host`; theorems that need it assume that no stored content collides with the one
-- written, and `EmptyAlone`, that only the empty content has the digest of the empty content.
--
-- Fuel: `remove` takes fuel for its recursion into directories, and to run out of it is Python's
-- RecursionError. `history` takes fuel for its loop over parents and returns `none` if it runs out;
-- each step goes to a lower version, unless an object is its own ancestor, so the version is enough.
-- The loops over the levels of a tree of hashes take as fuel the number of leaves; each level has
-- half as many hashes, so that is enough.
-- The loop of `stop` takes as fuel the number of queued writes; each round takes at least one of them.
-- The patched `resolve` of a namespace takes the depth of the stack as fuel, and no depth is enough.
-- `revoke` takes fuel for its recursion into children and returns `none` if it runs out; each call
-- is for a token that is not revoked yet and revokes it, so the number of these is enough.
--
-- Not modelled: threads and locks, SQLite's connections and why a transaction fails, the full-text index,
-- printing, and the parts of the repository that are front ends to outside libraries.
pub mod Base
pub mod Kernel
pub mod Store
pub mod Security
pub mod Net
