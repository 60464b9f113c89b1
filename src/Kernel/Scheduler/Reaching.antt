-- ===== src/Kernel/Scheduler/Reaching.antt =====
-- kernel/scheduler.py: what holds in every state that the steps lead to.
use data_py_os.Base.{
  ℕ, ◌+◌, ◌≤◌, ◌≡◌, refl, ap, ◌∙◌, ◌⊎◌, inl, inr, true, false, Option, none, some, arith,
  if◌then◌else◌, Bool-cases, Option-cases,
}
use data_py_os.Base.Eq.{◌==◌, nat_eq, Text}
use data_py_os.Base.Dict.{lookup, lookup-insert}
use data_py_os.Kernel.Scheduler.{
  Priority, NovaTask, AsyncScheduler, init, is_live, is_alive, new_task, submit, begin, finish,
  cancel, cancel_found, get, purge_done,
}
use data_py_os.Kernel.Scheduler.Steps.{
  Step, submits, cancels, purges, begins, finishes, Run, stop, more, put, IsValid, init-IsValid,
  Step-IsValid, Run-IsValid, cancel_lem, if_alive, lookup-without_done,
}

-- After any run from the start, `cancel` answers False for every pid and leaves every task as it is:
-- the scheduler never keeps a handle of the task that it could cancel.
pub cancel_never :
    (s : AsyncScheduler) (pid : ℕ)
    → Run init s
    → ((cancel pid s).0 ≡ false) × ((p : ℕ) → get p (cancel pid s).1 ≡ get p s)
unfolding get
cancel_never s pid run =
    let (answer, same, _) = cancel_lem pid s (Run-IsValid run init-IsValid) in (answer, same)

-- After any run from the start, `submit` gives a pid that no task has: it adds its task and leaves every other as it is.
pub submit_fresh :
    (now : ℕ) (name : Text) (priority : Priority) (s : AsyncScheduler) (p : ℕ)
    → Run init s
    → let (t, s') = submit now name priority s in
      (get t.pid s ≡ none) × (get p s' ≡ (if p == t.pid then some t else get p s))
unfolding submit get
submit_fresh now name priority s p run =
    let v = Run-IsValid run init-IsValid in
    (
      (elim (Option-cases (lookup (s.pid_ctr + 1) s.tasks)) [
        | inl free ↦ free
        | inr (t, e) ↦ absurd (omega (arith, (v.fits (s.pid_ctr + 1) t e).given))
      ]),
      lookup-insert p (s.pid_ctr + 1) (new_task now (s.pid_ctr + 1) name priority) s.tasks,
    )

-- The task stays as it is or is gone.
abbrev pub Kept : ℕ → NovaTask → AsyncScheduler → Type 0
Kept pid x s = (lookup pid s.tasks ≡ some x) ⊎ (lookup pid s.tasks ≡ none)

apart :
    (pid p : ℕ) (x t : NovaTask) (s : AsyncScheduler)
    → lookup pid s.tasks ≡ some x
    → is_alive x ≡ false
    → lookup p s.tasks ≡ some t
    → is_alive t ≡ true
    → (pid == p) ≡ false
apart pid p x t s e dead found alive = elim (Bool-cases (pid == p)) [
  | inr other ↦ other
  | inl same ↦
      let is : pid ≡ p = ground (arith, same) in
      let one : x ≡ t = cc (e, found, ap (λ z. lookup z s.tasks) is) in
      absurd (cc (ap (λ (z : NovaTask). is_alive z) one, dead, alive))
]

put-Kept :
    (pid p : ℕ) (x t : NovaTask) (s : AsyncScheduler)
    → lookup pid s.tasks ≡ some x
    → (pid == p) ≡ false
    → Kept pid x (put p t s)
put-Kept pid p x t s e other =
    inl
      (lookup-insert pid p t s.tasks ∙ ap (λ b. if b then some t else lookup pid s.tasks) other ∙ e)

Step-Kept :
    {s t : AsyncScheduler} (pid : ℕ) (x : NovaTask)
    → Step s t
    → IsValid s
    → lookup pid s.tasks ≡ some x
    → is_alive x ≡ false
    → Kept pid x t
unfolding submit purge_done
Step-Kept pid x (submits now name priority s) v e dead =
    let f = v.fits pid x e in
    let other : (pid == s.pid_ctr + 1) ≡ false = ground (arith, f.given) in
    inl (
      lookup-insert pid (s.pid_ctr + 1) (new_task now (s.pid_ctr + 1) name priority) s.tasks
      ∙ ap
          (λ b. if b then some (new_task now (s.pid_ctr + 1) name priority) else lookup pid s.tasks)
          other
      ∙ e)
Step-Kept pid x (cancels p s) v e dead = inl ((cancel_lem p s v).1 pid ∙ e)
Step-Kept pid x (purges s) v e dead = inr (
    lookup-without_done pid s.tasks v.keys
    ∙ ap if_alive e
    ∙ ap (λ b. if b then some x else none) dead)
Step-Kept pid x (begins now p t s found at) v e dead =
    put-Kept pid p x (begin now t) s e (apart pid p x t s e dead found (ap is_live at))
Step-Kept pid x (finishes now p o t s found at) v e dead =
    put-Kept pid p x (finish now o t) s e (apart pid p x t s e dead found (ap is_live at))

put_gone :
    (pid p : ℕ) (t u : NovaTask) (s : AsyncScheduler)
    → lookup pid s.tasks ≡ none
    → lookup p s.tasks ≡ some u
    → lookup pid (put p t s).tasks ≡ none
put_gone pid p t u s e found = elim (Bool-cases (pid == p)) [
  | inr other ↦
      lookup-insert pid p t s.tasks ∙ ap (λ b. if b then some t else lookup pid s.tasks) other ∙ e
  | inl same ↦
      let is : pid ≡ p = ground (arith, same) in
      absurd (cc (e, found, ap (λ z. lookup z s.tasks) is))
]

cancel_ctr : (pid : ℕ) (s : AsyncScheduler) → (cancel pid s).1.pid_ctr ≡ s.pid_ctr
unfolding cancel
cancel_ctr pid s = go (lookup pid s.tasks)
  where
    go : (o : Option NovaTask) → (cancel_found pid o s).1.pid_ctr ≡ s.pid_ctr
    go none = refl
    go (some t) = refl

-- The counter never goes back.
ctr_step : {s t : AsyncScheduler} → Step s t → s.pid_ctr ≤ t.pid_ctr
unfolding submit purge_done
ctr_step (submits now name priority s) = omega arith
ctr_step (cancels p s) = omega (arith, cancel_ctr p s)
ctr_step (purges s) = omega arith
ctr_step (begins now p t s found at) = omega arith
ctr_step (finishes now p o t s found at) = omega arith

-- A pid that is no task's and was given out stays so.
gone_step :
    {s t : AsyncScheduler} (pid : ℕ)
    → Step s t
    → IsValid s
    → pid ≤ s.pid_ctr
    → lookup pid s.tasks ≡ none
    → lookup pid t.tasks ≡ none
unfolding submit purge_done
gone_step pid (submits now name priority s) v given e =
    let other : (pid == s.pid_ctr + 1) ≡ false = ground (arith, given) in
    lookup-insert pid (s.pid_ctr + 1) (new_task now (s.pid_ctr + 1) name priority) s.tasks
    ∙ ap (λ b. if b then some (new_task now (s.pid_ctr + 1) name priority) else lookup pid s.tasks)
        other
    ∙ e
gone_step pid (cancels p s) v given e = (cancel_lem p s v).1 pid ∙ e
gone_step pid (purges s) v given e = lookup-without_done pid s.tasks v.keys ∙ ap if_alive e
gone_step pid (begins now p t s found at) v given e = put_gone pid p (begin now t) t s e found
gone_step pid (finishes now p o t s found at) v given e =
    put_gone pid p (finish now o t) t s e found

run_gone :
    {s t : AsyncScheduler} (pid : ℕ)
    → Run s t
    → IsValid s
    → pid ≤ s.pid_ctr
    → lookup pid s.tasks ≡ none
    → lookup pid t.tasks ≡ none
run_gone pid (stop s) v given e = e
run_gone pid (more step rest) v given e =
    run_gone pid rest (Step-IsValid step v) (omega (arith, ctr_step step, given))
      (gone_step pid step v given e)

Run-Kept :
    {s t : AsyncScheduler} (pid : ℕ) (x : NovaTask)
    → Run s t
    → IsValid s
    → lookup pid s.tasks ≡ some x
    → is_alive x ≡ false
    → Kept pid x t
Run-Kept pid x (stop s) v e dead = inl e
Run-Kept pid x (more step rest) v e dead = elim (Step-Kept pid x step v e dead) [
  | inl here ↦ Run-Kept pid x rest (Step-IsValid step v) here dead
  | inr gone ↦ inr (
      run_gone pid rest (Step-IsValid step v) (omega (arith, ctr_step step, (v.fits pid x e).given))
        gone)
]

-- A task that has ended, in a state that a run from the start leads to: after any further run it is in the table as
-- it was, with its status, result and error, or it has been purged and its pid is never used again.
pub ended_kept :
    (s t : AsyncScheduler) (pid : ℕ) (x : NovaTask)
    → Run init s
    → Run s t
    → get pid s ≡ some x
    → is_alive x ≡ false
    → (get pid t ≡ some x) ⊎ (get pid t ≡ none)
unfolding get
ended_kept s t pid x before after e dead =
    Run-Kept pid x after (Run-IsValid before init-IsValid) e dead
