-- ===== src/Store/Waq/Flushing.antt =====
-- store/waq.py: a flush does what its writes do one after the other, and the queue runs empty.
use data_py_os.Base.{
  ℕ, zero, suc, ◌+◌, ◌*◌, ◌≤◌, ◌≡◌, refl, sym, ap, ◌∙◌, false, Option, some, List, [], ◌∷◌, ◌++◌,
  arith,
}
use data_py_os.Base.Lists.{length}
use data_py_os.Store.Sos.Types.{Sos}
use data_py_os.Store.Sos.Objects.{add_row, index_tags}
use data_py_os.Store.Waq.{
  put_alias, WriteOp, WriteAheadQueue, batch_size, first, after, commit, flush_batch, flush, drain,
}

-- One write: the row of its object if there is none, its tags, and the path if it has one.
abbrev pub make_write : WriteOp → Sos → Sos
make_write op s = record s {
  objects = add_row op.obj.oid op.obj s.objects;
  aliases = put_alias op.alias_path op.obj.oid op.alias_is_dir s.aliases;
  tag_index = index_tags op.obj.oid op.tags s.tag_index;
}

-- Each write alone, in their order.
abbrev pub each : List WriteOp → Sos → Sos
each [] s = s
each (op ∷ ops) s = each ops (make_write op s)

commit-each : (ops : List WriteOp) (s : Sos) → commit ops s ≡ each ops s
unfolding commit
commit-each [] s = refl
commit-each (op ∷ ops) s = commit-each ops (make_write op s)

each-append : (xs ys : List WriteOp) (s : Sos) → each (xs ++ ys) s ≡ each ys (each xs s)
each-append [] ys s = refl
each-append (x ∷ xs) ys s = each-append xs ys (make_write x s)

first-after : (n : ℕ) (ops : List WriteOp) → first n ops ++ after n ops ≡ ops
first-after zero ops = refl
first-after (suc n) [] = refl
first-after (suc n) (op ∷ ops) = ap (λ z. op ∷ z) (first-after n ops)

length-first-after :
    (n : ℕ) (ops : List WriteOp) → length (first n ops) + length (after n ops) ≡ length ops
length-first-after zero ops = omega arith
length-first-after (suc n) [] = omega arith
length-first-after (suc n) (op ∷ ops) = omega (arith, length-first-after n ops)

-- A flush that does not fail, of a queue that is not empty.
pub flush_lem :
    (op : WriteOp) (ops : List WriteOp) (w : WriteAheadQueue) (s : Sos)
    → w.queue ≡ op ∷ ops
    → let batch = first (batch_size * 4) (op ∷ ops) in
      flush false w s ≡ (
        length batch,
        record w {
          queue = after (batch_size * 4) (op ∷ ops);
          flush_count = w.flush_count + 1;
          total_flushed = w.total_flushed + length batch;
        },
        each batch s,
      )
unfolding flush flush_batch
flush_lem op ops w s e =
    let batch = first (batch_size * 4) (op ∷ ops) in
    rw e (
      ap
        (λ z. (
          length batch,
          record w {
            queue = after (batch_size * 4) (op ∷ ops);
            flush_count = w.flush_count + 1;
            total_flushed = w.total_flushed + length batch;
          },
          z,
        ))
        (commit-each batch s))

-- What the loop of `stop` leaves.
pub record Drained (w : WriteAheadQueue) (s : Sos) (r : Option (WriteAheadQueue × Sos))
    : Type 0 where
  pub end : WriteAheadQueue
  pub done : r ≡ some (end, each w.queue s)
  pub empty : end.queue ≡ []
  pub flushed : end.total_flushed ≡ w.total_flushed + length w.queue

nil_length : (q : List WriteOp) → length q ≤ 0 → q ≡ []
nil_length [] h = refl
nil_length (op ∷ q) h = absurd (omega arith)

drain_round :
    (fuel : ℕ) (op : WriteOp) (ops : List WriteOp) (w : WriteAheadQueue) (s : Sos)
    → w.queue ≡ op ∷ ops
    → drain (suc fuel) w s ≡ drain fuel (flush false w s).1 (flush false w s).2
unfolding drain
drain_round fuel op ops w s e = rw e refl

drain_nil : (fuel : ℕ) (w : WriteAheadQueue) (s : Sos) → w.queue ≡ [] → drain fuel w s ≡ some (w, s)
unfolding drain
drain_nil zero w s e = rw e refl
drain_nil (suc fuel) w s e = rw e refl

Drained-nil :
    (w : WriteAheadQueue) (s : Sos) (r : Option (WriteAheadQueue × Sos))
    → w.queue ≡ []
    → r ≡ some (w, s)
    → Drained w s r
Drained-nil w s r e is = record {
  end = w;
  done = is ∙ ap (λ z. some (w, each z s)) (sym e);
  empty = e;
  flushed = omega (arith, ap length e);
}

shorter :
    (op : WriteOp) (ops : List WriteOp) (fuel : ℕ)
    → length (op ∷ ops) ≤ suc fuel
    → length (after (batch_size * 4) (op ∷ ops)) ≤ fuel
shorter op ops fuel h = omega (arith, h, length-first-after 399 ops)

drain_queue :
    (fuel : ℕ) (q : List WriteOp) (w : WriteAheadQueue) (s : Sos)
    → w.queue ≡ q
    → length q ≤ fuel
    → Drained w s (drain fuel w s)
drain_queue fuel [] w s e h = Drained-nil w s (drain fuel w s) e (drain_nil fuel w s e)
drain_queue zero (op ∷ ops) w s e h = absurd (omega arith)
drain_queue (suc fuel) (op ∷ ops) w s e h =
    let batch = first (batch_size * 4) (op ∷ ops) in
    let later = after (batch_size * 4) (op ∷ ops) in
    let w' : WriteAheadQueue = record w {
      queue = later;
      flush_count = w.flush_count + 1;
      total_flushed = w.total_flushed + length batch;
    } in
    let rest = drain_queue fuel later w' (each batch s) refl (shorter op ops fuel h) in
    let all : each later (each batch s) ≡ each w.queue s =
      sym (each-append batch later s)
      ∙ ap (λ q. each q s) (first-after (batch_size * 4) (op ∷ ops) ∙ sym e) in
    record {
      end = rest.end;
      done =
          drain_round fuel op ops w s e
          ∙ ap (λ (r : ℕ × WriteAheadQueue × Sos). drain fuel r.1 r.2) (flush_lem op ops w s e)
          ∙ rest.done
          ∙ ap (λ z. some (rest.end, z)) all;
      empty = rest.empty;
      flushed =
          omega (arith, rest.flushed, length-first-after (batch_size * 4) (op ∷ ops), ap length e);
    }

-- `stop` from any queue, with as many rounds as there are writes: while no flush fails, the loop ends with an
-- empty queue, every write has been made in the order in which it was queued, and all of them are counted.
pub drain_lem :
    (fuel : ℕ) (w : WriteAheadQueue) (s : Sos)
    → length w.queue ≤ fuel
    → Drained w s (drain fuel w s)
drain_lem fuel w s enough = drain_queue fuel w.queue w s refl enough
