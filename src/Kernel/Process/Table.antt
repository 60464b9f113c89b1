-- ===== src/Kernel/Process/Table.antt =====
-- kernel/process.py: what `spawn` and `kill` do to the table.
use data_py_os.Base.{
  ℕ, suc, ◌<◌, sym, ◌≡◌, ◌≢◌, ◌⊎◌, inl, inr, refl, true, false, Option, none, some, [], ◌∷◌, arith,
  if◌then◌else◌, Option-cases, Bool-cases,
}
use data_py_os.Base.Eq.{◌==◌, nat_eq, text_eq, chars}
use data_py_os.Base.Result.{ok, err}
use data_py_os.Base.Dict.{
  Dict, lookup, insert, erase, has, IsDict, insert-IsDict, erase-IsDict, lookup-insert_self,
  lookup-insert, lookup-erase, size-insert, size-erase,
}
use data_py_os.Base.Lists.{elem}
use data_py_os.Kernel.Process.{
  Process, ProcessManager, Request, make, Error, permission_error, process_lookup_error,
  protected_pids, spawn, kill, get, count, mark_zombie,
}

-- Every process is filed under its own pid.
abbrev pub Filed : Dict ℕ Process → Type 0
Filed [] = Unit
Filed ((k, p) ∷ d) = (p.pid ≡ k) × Filed d

pub record IsValid (m : ProcessManager) : Type 0 where
  pub keys : IsDict m.table
  pub filed : Filed m.table
  pub past_kernel : 4 < m.next_pid

Filed-insert :
    (k : ℕ) (p : Process) (d : Dict ℕ Process) → p.pid ≡ k → Filed d → Filed (insert k p d)
Filed-insert k p [] e hs = (e, tt)
Filed-insert k p (x ∷ d) e hs = ground (arith, Filed-insert k p d e hs.1)

Filed-erase : (k : ℕ) (d : Dict ℕ Process) → Filed d → Filed (erase k d)
Filed-erase k [] hs = tt
Filed-erase k (x ∷ d) hs = ground (arith, Filed-erase k d hs.1)

-- A dead process stands nowhere else in the table: erasing it undoes the mark.
erase-insert :
    (k : ℕ) (p : Process) (d : Dict ℕ Process) → has k d ≡ true → erase k (insert k p d) ≡ erase k d
erase-insert k p [] h = ground arith
erase-insert k p (x ∷ d) h = ground (arith, erase-insert k p d)

pub erase-mark_zombie :
    (pid : ℕ) (table : Dict ℕ Process)
    → has pid table ≡ true
    → erase pid (mark_zombie pid (lookup pid table) table) ≡ erase pid table
erase-mark_zombie pid table h = elim (Option-cases (lookup pid table)) [
  | inl e ↦ rw e
  | inr (p, e) ↦ rw e (erase-insert pid (record p { state = chars "Z" }) table h)
]

has_of_some : (pid : ℕ) (table : Dict ℕ Process) → lookup pid table ≢ none → has pid table ≡ true
has_of_some pid table h = elim (Option-cases (lookup pid table)) [
  | inl e ↦ absurd (h e)
  | inr (p, e) ↦ rw e
]

-- `kill` of a process that is there and not protected removes it: it is not found afterwards, the
-- others stay, and one process fewer is counted.
pub kill_removes :
    (pid k : ℕ) (m : ProcessManager)
    → IsValid m
    → elem pid protected_pids ≡ false
    → get pid m ≢ none
    → ((kill pid m).0 ≡ ok true)
      × (get k (kill pid m).1 ≡ (if k == pid then none else get k m))
      × (count m ≡ suc (count (kill pid m).1))
unfolding kill get count
kill_removes pid k m v e present =
    let here = has_of_some pid m.table present in
    let gone = erase-mark_zombie pid m.table here in
    (
      rw (e, here),
      rw (e, here, gone) (lookup-erase k pid m.table v.keys),
      rw (e, here, gone) (sym (size-erase pid m.table here)),
    )

-- A `kill` that raises changes nothing, and raises for one of two reasons: the process is
-- protected, or there is no such process.
pub kill_raises :
    (pid : ℕ) (m : ProcessManager) (e : Error)
    → (kill pid m).0 ≡ err e
    → ((kill pid m).1 ≡ m)
      × (((e ≡ permission_error) × (elem pid protected_pids ≡ true))
          ⊎ ((e ≡ process_lookup_error) × (get pid m ≡ none)))
unfolding kill get
kill_raises pid m e h = ground arith

pub kill-IsValid : (pid : ℕ) (m : ProcessManager) → IsValid m → IsValid (kill pid m).1
unfolding kill
kill-IsValid pid m v = elim (Bool-cases (elem pid protected_pids)) [
  | inl e ↦ rw e v
  | inr e ↦ elim (Bool-cases (has pid m.table)) [
    | inr absent ↦ rw (e, absent) v
    | inl here ↦
        rw (e, here, erase-mark_zombie pid m.table here)
          (record {
            keys = erase-IsDict pid m.table v.keys;
            filed = Filed-erase pid m.table v.filed;
            past_kernel = v.past_kernel;
          })
  ]
]

pub spawn-IsValid :
    (pid : Option ℕ) (r : Request) (m : ProcessManager) → IsValid m → IsValid (spawn pid r m).1
unfolding spawn
spawn-IsValid none r m v =
    let p = make m.next_pid r in
    record {
      keys = insert-IsDict m.next_pid p m.table v.keys;
      filed = Filed-insert m.next_pid p m.table refl v.filed;
      past_kernel = omega (arith, v.past_kernel);
    }
spawn-IsValid (some pid) r m v =
    let p = make pid r in
    record {
      keys = insert-IsDict pid p m.table v.keys;
      filed = Filed-insert pid p m.table refl v.filed;
      past_kernel = v.past_kernel;
    }

-- A `spawn` without a pid, while no process has the counter's next pid: the new process is found under it, the
-- others stay, one more is counted.
pub spawn_fresh :
    (k : ℕ) (r : Request) (m : ProcessManager)
    → get m.next_pid m ≡ none
    → let (pid, m') = spawn none r m in
      (get k m' ≡ (if k == pid then some (make pid r) else get k m)) × (count m' ≡ suc (count m))
unfolding spawn get count
spawn_fresh k r m fresh = (
  lookup-insert k m.next_pid (make m.next_pid r) m.table,
  ground (arith, fresh, size-insert m.next_pid (make m.next_pid r) m.table),
)

-- A process that was spawned under the counter's next pid by hand is lost to the next `spawn`
-- without a pid: both get the same pid, the second replaces the first and no process is added.
pub spawn_collides :
    (by_hand r : Request) (m : ProcessManager)
    → let (pid, m1) = spawn (some m.next_pid) by_hand m in
      let (pid', m2) = spawn none r m1 in
      (pid' ≡ pid)
      × (get pid m1 ≡ some (make pid by_hand))
      × (get pid m2 ≡ some (make pid r))
      × (count m2 ≡ count m1)
unfolding spawn get count
spawn_collides by_hand r m =
    let pid = m.next_pid in
    let t1 = insert pid (make pid by_hand) m.table in
    let first = lookup-insert_self pid (make pid by_hand) m.table in
    (
      refl,
      first,
      lookup-insert_self pid (make pid r) t1,
      ground (arith, first, size-insert pid (make pid r) t1),
    )
