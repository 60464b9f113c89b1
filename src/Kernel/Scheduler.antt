-- ===== src/Kernel/Scheduler.antt =====
-- kernel/scheduler.py: the tasks of the scheduler and the calls that change them. What the event loop does
-- to a task are the steps of its wrapper, `begin` and `finish`. The clock is an argument. Priorities are
-- kept with the task, and nothing reads them.
use data_py_os.Base.{
  ℕ, suc, ◌+◌, ◌-◌, ◌*◌, Bool, true, false, not, ◌||◌, Option, none, some, List, [], ◌∷◌, nat_beq,
  if◌then◌else◌,
}
use data_py_os.Base.Eq.{◌==◌, nat_eq, Text}
use data_py_os.Base.Dict.{Dict, lookup, insert, values}
use data_py_os.Base.Sort.{sort_by}
use data_py_os.Base.Lists.{length, keep}
pub mod Steps
pub mod Reaching
mod Tests

pub data Priority : Type 0 where
  idle low normal high realtime : Priority

pub data Status : Type 0 where
  pending running done cancelled failed : Status

-- `handle` is the field _task, with what its `done()` answers.
pub record NovaTask : Type 0 where
  pub pid : ℕ
  pub name : Text
  pub priority : Priority
  pub created_at : ℕ
  pub started_at : ℕ
  pub ended_at : ℕ
  pub status : Status
  pub result : Option Text
  pub error : Option Text
  pub handle : Option Bool

abbrev pub is_live : Status → Bool
is_live pending = true
is_live running = true
is_live _ = false

abbrev pub is_alive : NovaTask → Bool
is_alive t = is_live t.status

-- the runtime in milliseconds, for clocks in seconds
unfoldable pub runtime_ms : ℕ → NovaTask → ℕ
runtime_ms now t =
    if nat_beq t.started_at 0
    then 0
    else ((if nat_beq t.ended_at 0 then now else t.ended_at) - t.started_at) * 1000

abbrev pub cancel_by : Option Bool → NovaTask → Bool × NovaTask
cancel_by none t = (false, t)
cancel_by (some true) t = (false, t)
cancel_by (some false) t = (true, record t { status = cancelled })

unfoldable pub cancel_task : NovaTask → Bool × NovaTask
cancel_task t = cancel_by t.handle t

pub record AsyncScheduler : Type 0 where
  pub tasks : Dict ℕ NovaTask
  pub pid_ctr : ℕ

unfoldable pub init : AsyncScheduler
init = record { tasks = []; pid_ctr = 100 }

-- a task as `submit` leaves it
abbrev pub new_task : ℕ → ℕ → Text → Priority → NovaTask
new_task now pid name priority = record {
  pid = pid;
  name = name;
  priority = priority;
  created_at = now;
  started_at = 0;
  ended_at = 0;
  status = pending;
  result = none;
  error = none;
  handle = none;
}

unfoldable pub submit : ℕ → Text → Priority → AsyncScheduler → NovaTask × AsyncScheduler
submit now name priority s =
    let pid = s.pid_ctr + 1 in
    let t = new_task now pid name priority in
    (t, record { tasks = insert pid t s.tasks; pid_ctr = pid })

-- `_wrapper` up to the coroutine
abbrev pub begin : ℕ → NovaTask → NovaTask
begin now t = record t { status = running; started_at = now }

-- How the coroutine ends.
pub data Outcome : Type 0 where
  returned raised : Text → Outcome
  cancelled_error : Outcome

-- `_wrapper` after the coroutine
abbrev pub finish : ℕ → Outcome → NovaTask → NovaTask
finish now (returned value) t = record t { status = done; result = some value; ended_at = now }
finish now (raised message) t = record t { status = failed; error = some message; ended_at = now }
finish now cancelled_error t = record t { status = cancelled; ended_at = now }

abbrev pub cancel_found : ℕ → Option NovaTask → AsyncScheduler → Bool × AsyncScheduler
cancel_found pid none s = (false, s)
cancel_found pid (some t) s =
    let (b, t') = cancel_task t in (b, record s { tasks = insert pid t' s.tasks })

unfoldable pub cancel : ℕ → AsyncScheduler → Bool × AsyncScheduler
unfolding cancel_task
cancel pid s = cancel_found pid (lookup pid s.tasks) s

unfoldable pub get : ℕ → AsyncScheduler → Option NovaTask
get pid s = lookup pid s.tasks

abbrev pub without_done : Dict ℕ NovaTask → Dict ℕ NovaTask
without_done [] = []
without_done ((pid, t) ∷ tasks) =
    let rest = without_done tasks in if is_alive t then (pid, t) ∷ rest else rest

unfoldable pub purge_done : AsyncScheduler → ℕ × AsyncScheduler
purge_done s =
    let rest = without_done s.tasks in (length s.tasks - length rest, record s { tasks = rest })

unfoldable pub list_tasks : Bool → AsyncScheduler → List NovaTask
list_tasks include_done s =
    sort_by (λ (t : NovaTask). t.pid)
      (keep (λ (t : NovaTask). include_done || is_alive t) (values s.tasks))
