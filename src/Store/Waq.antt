-- ===== src/Store/Waq.antt =====
-- store/waq.py: the queue of writes and its flushes in batches, and `store` as patched. The full-text index
-- is left out, as it is in the object store; there the two differ, since a flush adds to it only contents below
-- 65,536 bytes and `store` the beginning of every one. Whether the transaction of a flush fails is an argument.
use data_py_os.Base.{
  ℕ, zero, suc, ◌+◌, ◌*◌, Bool, true, false, not, ◌&&◌, Option, none, some, List, [], ◌∷◌, ◌++◌,
  if◌then◌else◌,
}
use mathlib.Core.List.{reverse}
use data_py_os.Base.Eq.{text_eq, Text}
use data_py_os.Base.Dict.{Dict, insert}
use data_py_os.Base.Lists.{length, is_nil}
use data_py_os.Store.Lru
use data_py_os.Store.Sos.Types.{Host, SObject, Alias, Sos, oid_of}
use data_py_os.Store.Sos.Objects.{Draft, add_row, index_tags, get_parent, next_version, build}
pub mod Flushing
mod Tests

-- A pending write: the row of the object, with the path that an alias is written for, if there is one.
pub record WriteOp : Type 0 where
  pub obj : SObject
  pub alias_path : Option Text
  pub alias_is_dir : Bool
  pub tags : List Text

abbrev pub batch_size : ℕ
batch_size = 100

pub record WriteAheadQueue : Type 0 where
  pub queue : List WriteOp
  pub write_count : ℕ
  pub flush_count : ℕ
  pub total_flushed : ℕ

abbrev pub init : WriteAheadQueue
init = record { queue = []; write_count = 0; flush_count = 0; total_flushed = 0 }

-- `enqueue` once there is room
unfoldable pub enqueue : WriteOp → WriteAheadQueue → WriteAheadQueue
enqueue op w = record w { queue = w.queue ++ op ∷ []; write_count = w.write_count + 1 }

-- the first `n` writes, and those that stay
abbrev pub first : ℕ → List WriteOp → List WriteOp
first zero ops = []
first (suc n) [] = []
first (suc n) (op ∷ ops) = op ∷ first n ops

abbrev pub after : ℕ → List WriteOp → List WriteOp
after zero ops = ops
after (suc n) [] = []
after (suc n) (op ∷ ops) = after n ops

-- executemany(FLUSH_SQL_OBJECTS, obj_rows)
abbrev pub put_objects : List WriteOp → Dict Text SObject → Dict Text SObject
put_objects [] objects = objects
put_objects (op ∷ ops) objects = put_objects ops (add_row op.obj.oid op.obj objects)

-- the row of an alias; None and the empty path are no path
abbrev pub put_alias : Option Text → Text → Bool → Dict Text Alias → Dict Text Alias
put_alias none oid dir aliases = aliases
put_alias (some []) oid dir aliases = aliases
put_alias (some (c ∷ path)) oid dir aliases =
    insert (c ∷ path) (record { oid = oid; is_dir = dir }) aliases

-- executemany(FLUSH_SQL_ALIASES, alias_rows)
abbrev pub put_aliases : List WriteOp → Dict Text Alias → Dict Text Alias
put_aliases [] aliases = aliases
put_aliases (op ∷ ops) aliases =
    put_aliases ops (put_alias op.alias_path op.obj.oid op.alias_is_dir aliases)

-- executemany(FLUSH_SQL_TAGS, tag_rows)
abbrev pub put_tags : List WriteOp → List (Text × Text) → List (Text × Text)
put_tags [] rows = rows
put_tags (op ∷ ops) rows = put_tags ops (index_tags op.obj.oid op.tags rows)

-- the transaction of `flush`
unfoldable pub commit : List WriteOp → Sos → Sos
commit batch s = record s {
  objects = put_objects batch s.objects;
  aliases = put_aliases batch s.aliases;
  tag_index = put_tags batch s.tag_index;
}

-- `appendleft` of each write of the batch
abbrev pub put_back : List WriteOp → List WriteOp → List WriteOp
put_back [] queue = queue
put_back (op ∷ batch) queue = put_back batch (op ∷ queue)

-- `flush` with its batch
unfoldable pub flush_batch :
    Bool → List WriteOp → List WriteOp → WriteAheadQueue → Sos → ℕ × WriteAheadQueue × Sos
flush_batch fails [] rest w s = (0, record w { queue = rest }, s)
flush_batch true (op ∷ batch) rest w s = (0, record w { queue = put_back (op ∷ batch) rest }, s)
flush_batch false (op ∷ batch) rest w s =
    let n = length (op ∷ batch) in
    (
      n,
      record w {
        queue = rest;
        flush_count = w.flush_count + 1;
        total_flushed = w.total_flushed + n;
      },
      commit (op ∷ batch) s,
    )

unfoldable pub flush : Bool → WriteAheadQueue → Sos → ℕ × WriteAheadQueue × Sos
unfolding flush_batch
flush fails w s =
    flush_batch fails (first (batch_size * 4) w.queue) (after (batch_size * 4) w.queue) w s

-- The loop of `stop`, while the flushes succeed; running out of fuel is a loop that has not ended.
unfoldable pub drain : ℕ → WriteAheadQueue → Sos → Option (WriteAheadQueue × Sos)
drain zero w s = if is_nil w.queue then some (w, s) else none
drain (suc fuel) w s =
    let (n, w', s') = flush false w s in
    let rest = drain fuel w' s' in if is_nil w.queue then some (w, s) else rest

-- `store` as patched. It gives the queue no links and no path.
unfoldable pub batched_store :
    ⦃h : Host⦄ → Draft → WriteAheadQueue → Sos → Text × WriteAheadQueue × Sos
batched_store d w s =
    let oid = oid_of d.content in
    let (parent, s') = get_parent d.parent_oid s in
    let obj = build oid d (next_version parent) in
    let op : WriteOp = record {
      obj = obj;
      alias_path = none;
      alias_is_dir = false;
      tags = obj.tags;
    } in
    (oid, enqueue op w, record s' { obj_cache = Lru.set oid obj s'.obj_cache })
