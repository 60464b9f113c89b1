-- ===== src/Kernel/Process/Calls.antt =====
-- kernel/process.py: sequences of calls of `spawn` and `kill`.
use data_py_os.Base.{
  ℕ, ◌<◌, ◌≡◌, ◌≢◌, inl, inr, refl, true, Option, none, some, List, [], ◌∷◌, arith, Bool-cases, ◌∙◌,
}
use data_py_os.Base.Eq.{nat_eq, text_eq}
use data_py_os.Base.Dict.{has, lookup-insert_ne, lookup-erase_ne}
use data_py_os.Base.Lists.{elem}
use data_py_os.Kernel.Process.{
  ProcessManager, init, Request, make, protected_pids, spawn, kill, get,
}
use data_py_os.Kernel.Process.Table.{IsValid, erase-mark_zombie, kill-IsValid, spawn-IsValid}

-- A call that a program makes: a `spawn`, with or without a pid, or a `kill`.
pub data Call : Type 0 where
  start : Option ℕ → Request → Call
  stop : ℕ → Call

unfoldable pub serve : List Call → ProcessManager → ProcessManager
serve [] m = m
serve (start pid r ∷ calls) m = serve calls (spawn pid r m).1
serve (stop pid ∷ calls) m = serve calls (kill pid m).1

serve-IsValid : (calls : List Call) (m : ProcessManager) → IsValid m → IsValid (serve calls m)
unfolding serve
serve-IsValid [] m v = v
serve-IsValid (start pid r ∷ calls) m v =
    serve-IsValid calls (spawn pid r m).1 (spawn-IsValid pid r m v)
serve-IsValid (stop pid ∷ calls) m v = serve-IsValid calls (kill pid m).1 (kill-IsValid pid m v)

pub serve_calls-IsValid : (calls : List Call) → IsValid (serve calls init)
serve_calls-IsValid calls =
    serve-IsValid calls init (record { keys = tt; filed = tt; past_kernel = omega arith })

kill_keeps_protected :
    (k pid : ℕ) (m : ProcessManager) → elem k protected_pids ≡ true → get k (kill pid m).1 ≡ get k m
unfolding kill get
kill_keeps_protected k pid m h = elim (Bool-cases (elem pid protected_pids)) [
  | inl e ↦ rw e
  | inr e ↦ elim (Bool-cases (has pid m.table)) [
    | inr absent ↦ rw (e, absent)
    | inl here ↦
        rw (e, here, erase-mark_zombie pid m.table here)
          (lookup-erase_ne k pid m.table (λ same. cc (h, e, same)))
  ]
]

protected_ne : (k n : ℕ) → elem k protected_pids ≡ true → 4 < n → k ≢ n
protected_ne k n h past = ground arith

-- No call of the list names the pid in a `spawn`.
abbrev pub Spares : ℕ → List Call → Type 0
Spares k [] = Unit
Spares k (start none r ∷ calls) = Spares k calls
Spares k (start (some pid) r ∷ calls) = (k ≢ pid) × Spares k calls
Spares k (stop pid ∷ calls) = Spares k calls

spawn_keeps_protected :
    (k : ℕ) (r : Request) (m : ProcessManager)
    → IsValid m
    → elem k protected_pids ≡ true
    → get k (spawn none r m).1 ≡ get k m
unfolding spawn get
spawn_keeps_protected k r m v h =
    lookup-insert_ne k m.next_pid (make m.next_pid r) m.table
      (protected_ne k m.next_pid h v.past_kernel)

spawn_at_keeps :
    (k pid : ℕ) (r : Request) (m : ProcessManager)
    → k ≢ pid
    → get k (spawn (some pid) r m).1 ≡ get k m
unfolding spawn get
spawn_at_keeps k pid r m ne = lookup-insert_ne k pid (make pid r) m.table ne

-- From any valid table, as the one that the boot makes: calls of `spawn` and `kill`, none of which spawns a process under the
-- kernel's pid `k` by naming it, neither remove nor replace the process that `k` has.
pub serve_keeps_protected :
    (calls : List Call) (k : ℕ) (m : ProcessManager)
    → IsValid m
    → elem k protected_pids ≡ true
    → Spares k calls
    → get k (serve calls m) ≡ get k m
unfolding serve
serve_keeps_protected [] k m v h x = refl
serve_keeps_protected (start none r ∷ calls) k m v h x =
    serve_keeps_protected calls k (spawn none r m).1 (spawn-IsValid none r m v) h x
    ∙ spawn_keeps_protected k r m v h
serve_keeps_protected (start (some pid) r ∷ calls) k m v h (ne, x) =
    serve_keeps_protected calls k (spawn (some pid) r m).1 (spawn-IsValid (some pid) r m v) h x
    ∙ spawn_at_keeps k pid r m ne
serve_keeps_protected (stop pid ∷ calls) k m v h x =
    serve_keeps_protected calls k (kill pid m).1 (kill-IsValid pid m v) h x
    ∙ kill_keeps_protected k pid m h
