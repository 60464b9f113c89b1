-- ===== src/Net/Crdt.antt =====
-- net/crdt.py: last-writer-wins registers over the aliases of the object store. Timestamps are
-- compared only, and stand here as natural numbers. `merge` returns the other register exactly if it
-- wins, so a merge is accepted if it wins. The exchange over HTTP is left out: it fetches registers,
-- stores missing objects and calls `merge_register` for each.
pub mod Stamps
pub mod Merging
pub mod Converging
mod Tests
use data_py_os.Base.{
  ℕ, Bool, true, false, ◌&&◌, ◌||◌, Option, none, some, List, [], ◌∷◌, ltb, leb, nat_beq,
  if◌then◌else◌,
}
use data_py_os.Base.Eq.{Text, text_eq}
use data_py_os.Base.Order.{text_ltb}
use data_py_os.Base.Dict.{Dict, lookup, insert, values}
use data_py_os.Base.Lists.{keep, length}
use data_py_os.Store.Lru
use data_py_os.Store.Sos.Types.{Sos}
use data_py_os.Store.Sos.Aliases.{alias}

pub record LwwRegister : Type 0 where
  pub path : Text
  pub oid : Text
  pub ts : ℕ
  pub node_id : Text

-- other.ts > self.ts or, at the same time, other.node_id > self.node_id
unfoldable pub wins : LwwRegister → LwwRegister → Bool
wins self other =
    ltb self.ts other.ts || (nat_beq other.ts self.ts && text_ltb self.node_id other.node_id)

unfoldable pub merge : LwwRegister → LwwRegister → LwwRegister
merge self other = if wins self other then other else self

pub record CrdtStore : Type 0 where
  pub sos : Sos
  pub node_id : Text
  pub registers : Dict Text LwwRegister

unfoldable pub record_write : Text → Text → ℕ → CrdtStore → CrdtStore
record_write path oid now m = record m {
  registers =
      insert path (record { path = path; oid = oid; ts = now; node_id = m.node_id }) m.registers;
}

-- the alias of an accepted register, and its place in the cache
unfoldable pub apply : LwwRegister → Sos → Sos
apply r s =
    let s' = alias r.path r.oid false s in
    record s' { path_cache = Lru.set r.path r.oid s'.path_cache }

unfoldable pub accept : LwwRegister → CrdtStore → Bool × CrdtStore
accept r m = (true, record m { registers = insert r.path r m.registers; sos = apply r m.sos })

-- `merge_register` once the local register is looked up
unfoldable pub merge_found : LwwRegister → Option LwwRegister → CrdtStore → Bool × CrdtStore
merge_found remote none m = accept remote m
merge_found remote (some local) m = if wins local remote then accept remote m else (false, m)

unfoldable pub merge_register : LwwRegister → CrdtStore → Bool × CrdtStore
unfolding merge_found
merge_register remote m = merge_found remote (lookup remote.path m.registers) m

-- the merges of `sync_with_peer`, in the order of the peer's delta
unfoldable pub merge_all : List LwwRegister → CrdtStore → CrdtStore
merge_all [] m = m
merge_all (r ∷ rs) m = merge_all rs (merge_register r m).1

unfoldable pub export_delta : ℕ → CrdtStore → List LwwRegister
export_delta since m = keep (λ r. leb since r.ts) (values m.registers)
