-- ===== src/Kernel/Scheduler/Steps.antt =====
-- kernel/scheduler.py: the steps of clients and of the event loop as a relation, and what they keep.
use data_py_os.Base.{
  ℕ, ◌+◌, ◌≤◌, ◌≡◌, refl, sym, ap, ◌∙◌, ◌⊎◌, inl, inr, Bool, true, false, Option, none, some, [],
  ◌∷◌, arith, if◌then◌else◌, Bool-cases,
}
use data_py_os.Base.Eq.{◌==◌, nat_eq, Text}
use data_py_os.Base.Dict.{
  Dict, lookup, insert, IsDict, insert-IsDict, lookup-insert, lookup-insert_self,
}
use data_py_os.Kernel.Scheduler.{
  Priority, pending, running, NovaTask, AsyncScheduler, init, is_alive, new_task, submit, begin,
  Outcome, returned, raised, cancelled_error, finish, cancel, cancel_task, cancel_found, cancel_by,
  purge_done, without_done,
}

abbrev pub put : ℕ → NovaTask → AsyncScheduler → AsyncScheduler
put pid t s = record s { tasks = insert pid t s.tasks }

-- One step: a call of a client, or the event loop runs the wrapper of a task up to its coroutine or after it.
pub data Step : AsyncScheduler → AsyncScheduler → Type 0 where
  submits :
      (now : ℕ) (name : Text) (priority : Priority) (s : AsyncScheduler)
      → Step s (submit now name priority s).1
  cancels : (pid : ℕ) (s : AsyncScheduler) → Step s (cancel pid s).1
  purges : (s : AsyncScheduler) → Step s (purge_done s).1
  begins :
      (now pid : ℕ) (t : NovaTask) (s : AsyncScheduler)
      → lookup pid s.tasks ≡ some t
      → t.status ≡ pending
      → Step s (put pid (begin now t) s)
  finishes :
      (now pid : ℕ) (o : Outcome) (t : NovaTask) (s : AsyncScheduler)
      → lookup pid s.tasks ≡ some t
      → t.status ≡ running
      → Step s (put pid (finish now o t) s)

-- Some steps.
pub data Run : AsyncScheduler → AsyncScheduler → Type 0 where
  stop : (s : AsyncScheduler) → Run s s
  more : {s t u : AsyncScheduler} → Step s t → Run t u → Run s u

-- A task under its pid, which was given out, and without a handle.
pub record Fits (n pid : ℕ) (t : NovaTask) : Type 0 where
  pub given : pid ≤ n
  pub own : t.pid ≡ pid
  pub bare : t.handle ≡ none

pub record IsValid (s : AsyncScheduler) : Type 0 where
  pub keys : IsDict s.tasks
  pub fits : (pid : ℕ) (t : NovaTask) → lookup pid s.tasks ≡ some t → Fits s.pid_ctr pid t

lookup-put :
    (p pid : ℕ) (t : NovaTask) (tasks : Dict ℕ NovaTask) (u : NovaTask)
    → lookup p (insert pid t tasks) ≡ some u
    → ((p ≡ pid) × (t ≡ u)) ⊎ (lookup p tasks ≡ some u)
lookup-put p pid t tasks u e = elim (Bool-cases (p == pid)) [
  | inl same ↦
      let e' = sym (lookup-insert p pid t tasks) ∙ e in
      inl (ground (arith, same), cc (rw same at e'))
  | inr other ↦ let e' = sym (lookup-insert p pid t tasks) ∙ e in inr (rw other at e')
]

put-IsValid :
    (pid : ℕ) (t : NovaTask) (s : AsyncScheduler)
    → Fits s.pid_ctr pid t
    → IsValid s
    → IsValid (put pid t s)
put-IsValid pid t s f v = record {
  keys = insert-IsDict pid t s.tasks v.keys;
  fits = λ p u e. elim (lookup-put p pid t s.tasks u e) [
    | inl (at, is) ↦ rw (at, ← is) f
    | inr old ↦ v.fits p u old
  ];
}

abbrev pub if_alive : Option NovaTask → Option NovaTask
if_alive none = none
if_alive (some t) = if is_alive t then some t else none

-- What `purge_done` leaves of a task.
pub lookup-without_done :
    (pid : ℕ) (tasks : Dict ℕ NovaTask)
    → IsDict tasks
    → lookup pid (without_done tasks) ≡ if_alive (lookup pid tasks)
lookup-without_done pid [] u = refl
lookup-without_done pid ((k, t) ∷ tasks) u =
    let rest = lookup-without_done pid tasks u.1 in
    elim (Bool-cases (pid == k)) [
      | inl same ↦
          let is : pid ≡ k = ground (arith, same) in
          let gone : lookup pid tasks ≡ none = ap (λ z. lookup z tasks) is ∙ u.0 in
          elim (Bool-cases (is_alive t)) [
            | inl alive ↦ rw (alive, same, alive) refl
            | inr dead ↦ rw (dead, same, dead) (rest ∙ ap if_alive gone)
          ]
      | inr other ↦ elim (Bool-cases (is_alive t)) [
        | inl alive ↦ rw (alive, other) rest
        | inr dead ↦ rw (dead, other) rest
      ]
    ]

if_alive_back :
    (o : Option NovaTask) (t : NovaTask) → if_alive o ≡ some t → (o ≡ some t) × (is_alive t ≡ true)
if_alive_back none t e = absurd (cc e)
if_alive_back (some u) t e = elim (Bool-cases (is_alive u)) [
  | inl alive ↦
      let is : u ≡ t = cc (rw alive at e) in
      (ap some is, ap (λ (z : NovaTask). is_alive z) (sym is) ∙ alive)
  | inr dead ↦ absurd (cc (rw dead at e))
]

without_done-IsDict : (tasks : Dict ℕ NovaTask) → IsDict tasks → IsDict (without_done tasks)
without_done-IsDict [] u = tt
without_done-IsDict ((k, t) ∷ tasks) u = elim (Bool-cases (is_alive t)) [
  | inl alive ↦
      rw alive (lookup-without_done k tasks u.1 ∙ ap if_alive u.0, without_done-IsDict tasks u.1)
  | inr dead ↦ rw dead (without_done-IsDict tasks u.1)
]

cancel_bare : (t : NovaTask) → t.handle ≡ none → cancel_task t ≡ (false, t)
unfolding cancel_task
cancel_bare t e = ap (λ (h : Option Bool). cancel_by h t) e

-- No task of a valid scheduler can be cancelled.
cancel_found_lem :
    (pid : ℕ) (o : Option NovaTask) (s : AsyncScheduler)
    → IsValid s
    → lookup pid s.tasks ≡ o
    → ((cancel_found pid o s).0 ≡ false)
      × ((p : ℕ) → lookup p (cancel_found pid o s).1.tasks ≡ lookup p s.tasks)
      × IsValid (cancel_found pid o s).1
cancel_found_lem pid none s v e = (refl, (λ p. refl), v)
cancel_found_lem pid (some t) s v e =
    let f = v.fits pid t e in
    rw (cancel_bare t f.bare) (
      refl,
      (λ p. elim (Bool-cases (p == pid)) [
        | inl same ↦
            let is : p ≡ pid = ground (arith, same) in
            rw (is, lookup-insert_self pid t s.tasks, e) refl
        | inr other ↦ rw (lookup-insert p pid t s.tasks, other) refl
      ]),
      put-IsValid pid t s f v,
    )

pub cancel_lem :
    (pid : ℕ) (s : AsyncScheduler)
    → IsValid s
    → ((cancel pid s).0 ≡ false)
      × ((p : ℕ) → lookup p (cancel pid s).1.tasks ≡ lookup p s.tasks)
      × IsValid (cancel pid s).1
unfolding cancel
cancel_lem pid s v = cancel_found_lem pid (lookup pid s.tasks) s v refl

submit-IsValid :
    (now : ℕ) (name : Text) (priority : Priority) (s : AsyncScheduler)
    → IsValid s
    → IsValid (submit now name priority s).1
unfolding submit
submit-IsValid now name priority s v = record {
  keys = insert-IsDict (s.pid_ctr + 1) (new_task now (s.pid_ctr + 1) name priority) s.tasks v.keys;
  fits = λ p u e.
      elim (lookup-put p (s.pid_ctr + 1) (new_task now (s.pid_ctr + 1) name priority) s.tasks u e) [
        | inl (at, is) ↦ rw (at, ← is) record { given = omega arith; own = refl; bare = refl }
        | inr old ↦
            let f = v.fits p u old in
            record { given = omega (arith, f.given); own = f.own; bare = f.bare }
      ];
}

purge-IsValid : (s : AsyncScheduler) → IsValid s → IsValid (purge_done s).1
unfolding purge_done
purge-IsValid s v = record {
  keys = without_done-IsDict s.tasks v.keys;
  fits = λ p u e.
      v.fits p u
        (if_alive_back (lookup p s.tasks) u (sym (lookup-without_done p s.tasks v.keys) ∙ e)).0;
}

finish-Fits :
    (n pid now : ℕ) (o : Outcome) (t : NovaTask) → Fits n pid t → Fits n pid (finish now o t)
finish-Fits n pid now (returned value) t f = record { given = f.given; own = f.own; bare = f.bare }
finish-Fits n pid now (raised message) t f = record { given = f.given; own = f.own; bare = f.bare }
finish-Fits n pid now cancelled_error t f = record { given = f.given; own = f.own; bare = f.bare }

pub Step-IsValid : {s t : AsyncScheduler} → Step s t → IsValid s → IsValid t
Step-IsValid (submits now name priority s) v = submit-IsValid now name priority s v
Step-IsValid (cancels pid s) v = (cancel_lem pid s v).2
Step-IsValid (purges s) v = purge-IsValid s v
Step-IsValid (begins now pid t s found at) v =
    let f = v.fits pid t found in
    put-IsValid pid (begin now t) s record { given = f.given; own = f.own; bare = f.bare } v
Step-IsValid (finishes now pid o t s found at) v =
    put-IsValid pid (finish now o t) s (finish-Fits s.pid_ctr pid now o t (v.fits pid t found)) v

-- Every state that the steps lead to from the start is valid: no pid twice, none above the counter, each task under its own.
pub Run-IsValid : {s t : AsyncScheduler} → Run s t → IsValid s → IsValid t
Run-IsValid (stop s) v = v
Run-IsValid (more step rest) v = Run-IsValid rest (Step-IsValid step v)

pub init-IsValid : IsValid init
unfolding init
init-IsValid = record { keys = tt; fits = λ pid t e. absurd (cc e) }
