-- ===== src/Store/Waq/Tests.antt =====
-- store/waq.py: runs of a small queue, and the theorems at concrete inputs.
use data_py_os.Base.{◌≡◌, refl, true, false, none, some, [], ◌∷◌, arith}
use data_py_os.Base.Eq.{Text, chars, text_eq, text_beq}
use data_py_os.Base.Lists.{length}
use data_py_os.Store.Sos.Types.{Host, init as empty}
use data_py_os.Store.Sos.Objects.{Draft, build, get_parent, index_tags}
use data_py_os.Store.Sos.Coherent.{target}
use data_py_os.Store.Waq.{
  WriteOp, WriteAheadQueue, init, enqueue, commit, flush, flush_batch, drain, batched_store,
}
use data_py_os.Store.Waq.Flushing.{Drained, drain_lem}

instance abbrev plain : Host
plain = record { hexdigest = λ b. b; encode = λ t. t; decode = λ b. b }

abbrev draft : Text → Draft
draft content = record {
  content = content;
  kind = chars "text";
  meta = [];
  tags = [];
  links = [];
  parent_oid = none;
  now = 3;
}

-- A write of a content at a path.
abbrev write_op : Text → Text → WriteOp
write_op path content = record {
  obj = build content (draft content) 1;
  alias_path = some path;
  alias_is_dir = false;
  tags = [];
}

abbrev note : Text
note = chars "/n"

abbrev two : WriteAheadQueue
two = enqueue (write_op note (chars "b")) (enqueue (write_op note (chars "a")) init)

two_length : length two.queue ≡ 2
unfolding enqueue
two_length = refl

-- The later of the two writes decides what the path stands for.
newer_wins : target note (flush false two empty).2 ≡ some (chars "b")
unfolding enqueue flush flush_batch commit text_beq index_tags
newer_wins = refl

-- After a flush that failed, the writes are queued the other way round: the older one decides.
older_wins :
    (let (n, w, s) = flush true two empty in target note (flush false w s).2) ≡ some (chars "a")
unfolding enqueue flush flush_batch commit text_beq index_tags
older_wins = refl

-- The links of an object are not written.
links_lost :
    (let (oid, w, s) =
        batched_store (record (draft (chars "a")) { links = chars "b" ∷ [] }) init empty in
      (flush false w s).2.links)
    ≡ []
unfolding batched_store enqueue flush flush_batch commit get_parent
links_lost = refl

drain_lem_example : Drained two empty (drain 2 two empty)
drain_lem_example = drain_lem 2 two empty (omega (arith, two_length))
