-- ===== src/Kernel/Scheduler/Tests.antt =====
-- kernel/scheduler.py: a run of one task, and the theorems at concrete inputs.
use data_py_os.Base.{ℕ, ◌≡◌, ◌⊎◌, refl, true, false, none, some, [], ◌∷◌}
use data_py_os.Base.Eq.{nat_eq, chars, Text}
use data_py_os.Kernel.Scheduler.{
  normal, NovaTask, AsyncScheduler, init, new_task, submit, begin, returned, finish, cancel, get,
  purge_done, list_tasks, runtime_ms,
}
use data_py_os.Kernel.Scheduler.Steps.{submits, purges, begins, finishes, Run, stop, more, put}
use data_py_os.Kernel.Scheduler.Reaching.{cancel_never, ended_kept}

abbrev job : Text
job = chars "job"

abbrev asked : AsyncScheduler
asked = (submit 5 job normal init).1

abbrev task : NovaTask
task = new_task 5 101 job normal

abbrev busy : AsyncScheduler
busy = put 101 (begin 6 task) asked

abbrev ended : NovaTask
ended = finish 8 (returned (chars "42")) (begin 6 task)

abbrev over : AsyncScheduler
over = put 101 ended busy

run_over : Run init over
unfolding submit init
run_over = more (submits 5 job normal init) (
    more (begins 6 101 task asked refl refl)
      (more (finishes 8 101 (returned (chars "42")) (begin 6 task) busy refl refl) (stop over)))

-- The task ran for two seconds, is listed only among all tasks, and goes with a purge.
over_lists :
    (runtime_ms 99 ended ≡ 2000)
    × (list_tasks false over ≡ [])
    × (list_tasks true over ≡ ended ∷ [])
    × ((purge_done over).0 ≡ 1)
unfolding runtime_ms list_tasks purge_done submit init
over_lists = (refl, refl, refl, refl)

cancel_never_example :
    ((cancel 101 over).0 ≡ false) × ((p : ℕ) → get p (cancel 101 over).1 ≡ get p over)
cancel_never_example = cancel_never over 101 run_over

ended_kept_example :
    (get 101 (purge_done over).1 ≡ some ended) ⊎ (get 101 (purge_done over).1 ≡ none)
unfolding get submit init
ended_kept_example =
    ended_kept over (purge_done over).1 101 ended run_over
      (more (purges over) (stop (purge_done over).1)) refl refl
