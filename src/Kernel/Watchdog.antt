-- ===== src/Kernel/Watchdog.antt =====
-- kernel/watchdog.py: the records of the watched subsystems and the checks of `KernelWatchdog`. What a
-- health check or a restart function does when it is called is an argument of the call, and so is the
-- clock, in whole seconds.
use data_py_os.Base.{
  ℕ, suc, ◌-◌, min, Bool, true, false, not, ◌&&◌, Option, none, some, List, [], ◌∷◌, if◌then◌else◌,
  nat_beq, ltb, leb,
}
use Prim.Native.Nat.{◌^◌}
use data_py_os.Base.Eq.{text_eq, Text}
use data_py_os.Base.Dict.{Dict, lookup, insert, erase}
pub mod Quarantine
pub mod Outage
mod Tests

abbrev pub failure_threshold : ℕ
failure_threshold = 3

abbrev pub quarantine_threshold : ℕ
quarantine_threshold = 5

abbrev pub max_backoff_s : ℕ
max_backoff_s = 300

pub data SubsystemState : Type 0 where
  healthy degraded restarting quarantined unknown : SubsystemState

-- `has_restart_fn` says that `restart_fn` is not None.
pub record SubsystemRecord : Type 0 where
  pub name : Text
  pub has_restart_fn : Bool
  pub state : SubsystemState
  pub consecutive_failures : ℕ
  pub total_failures : ℕ
  pub restart_count : ℕ
  pub last_checked : ℕ
  pub last_ok : ℕ
  pub last_restart : ℕ
  pub error_msg : Text

abbrev pub next_restart_delay : SubsystemRecord → ℕ
next_restart_delay r = min max_backoff_s (2 ^ r.restart_count)

abbrev pub is_quarantined : SubsystemState → Bool
is_quarantined quarantined = true
is_quarantined _ = false

-- what a call of the health check does
pub data Check : Type 0 where
  passes fails : Check
  raises : Text → Check

-- what a call of the restart function does
pub data Attempt : Type 0 where
  returns : Attempt
  throws : Text → Attempt

-- what the watchdog does to the outside
pub data Event : Type 0 where
  no_restart_function : Event
  failed_restarts : ℕ → Event
  call_restart : Event

abbrev pub restarted : ℕ → Attempt → SubsystemRecord → SubsystemRecord
restarted now returns r = record r {
  state = healthy;
  last_restart = now;
  restart_count = suc r.restart_count;
  consecutive_failures = 0;
  last_ok = now;
}
restarted now (throws message) r = record r {
  state = restarting;
  last_restart = now;
  restart_count = suc r.restart_count;
  error_msg = message;
}

-- rec.last_restart > 0 and since_last < rec.next_restart_delay()
abbrev pub in_backoff : ℕ → SubsystemRecord → Bool
in_backoff now r = ltb 0 r.last_restart && ltb (now - r.last_restart) (next_restart_delay r)

unfoldable pub attempt_restart : ℕ → Attempt → SubsystemRecord → SubsystemRecord × List Event
attempt_restart now attempt r =
    if not r.has_restart_fn
    then (record r { state = quarantined }, no_restart_function ∷ [])
    else if in_backoff now r
    then (r, [])
    else if leb quarantine_threshold r.restart_count
    then (record r { state = quarantined }, failed_restarts r.restart_count ∷ [])
    else (restarted now attempt r, call_restart ∷ [])

abbrev pub passed : ℕ → SubsystemRecord → SubsystemRecord
passed now r = record r { state = healthy; consecutive_failures = 0; last_ok = now }

-- the part of `_check_one` after the check has failed
unfoldable pub unhealthy : ℕ → Attempt → SubsystemRecord → SubsystemRecord × List Event
unhealthy now attempt r =
    let r1 : SubsystemRecord = record r {
      consecutive_failures = suc r.consecutive_failures;
      total_failures = suc r.total_failures;
    } in
    if nat_beq r1.consecutive_failures 1
    then (record r1 { state = degraded }, [])
    else if leb failure_threshold r1.consecutive_failures
    then attempt_restart now attempt r1
    else (r1, [])

unfoldable pub check_one : ℕ → Check → Attempt → SubsystemRecord → SubsystemRecord × List Event
check_one now passes attempt r = (passed now (record r { last_checked = now }), [])
check_one now fails attempt r = unhealthy now attempt (record r { last_checked = now })
check_one now (raises message) attempt r =
    unhealthy now attempt (record r { last_checked = now; error_msg = message })

-- one round of `_check_all`
unfoldable pub poll : ℕ → Check → Attempt → SubsystemRecord → SubsystemRecord × List Event
poll now check attempt r = if is_quarantined r.state then (r, []) else check_one now check attempt r

-- `_check_all`: the checks and the restart functions of the subsystems by their names
unfoldable pub check_all :
    ℕ → (Text → Check) → (Text → Attempt) → Dict Text SubsystemRecord → Dict Text SubsystemRecord
check_all now check attempt [] = []
check_all now check attempt ((name, r) ∷ records) =
    (name, (poll now (check name) (attempt name) r).0) ∷ check_all now check attempt records

abbrev pub new_record : Text → Bool → SubsystemRecord
new_record name has_restart_fn = record {
  name = name;
  has_restart_fn = has_restart_fn;
  state = unknown;
  consecutive_failures = 0;
  total_failures = 0;
  restart_count = 0;
  last_checked = 0;
  last_ok = 0;
  last_restart = 0;
  error_msg = [];
}

unfoldable pub register : Text → Bool → Dict Text SubsystemRecord → Dict Text SubsystemRecord
register name has_restart_fn records = insert name (new_record name has_restart_fn) records

unfoldable pub unregister : Text → Dict Text SubsystemRecord → Dict Text SubsystemRecord
unregister name records = erase name records

abbrev pub restart_found :
    ℕ
    → Attempt
    → Text
    → Option SubsystemRecord
    → Dict Text SubsystemRecord
    → Bool × Dict Text SubsystemRecord
restart_found now attempt name none records = (false, records)
restart_found now attempt name (some r) records =
    let r1 : SubsystemRecord = record r {
      state = degraded;
      restart_count = 0;
      consecutive_failures = failure_threshold;
    } in
    (true, insert name (attempt_restart now attempt r1).0 records)

unfoldable pub restart :
    ℕ → Attempt → Text → Dict Text SubsystemRecord → Bool × Dict Text SubsystemRecord
restart now attempt name records = restart_found now attempt name (lookup name records) records

abbrev pub resume_found :
    Text → Option SubsystemRecord → Dict Text SubsystemRecord → Bool × Dict Text SubsystemRecord
resume_found name none records = (false, records)
resume_found name (some r) records =
    if is_quarantined r.state
    then (
      true,
      insert name (record r { state = unknown; restart_count = 0; consecutive_failures = 0 })
          records,
    )
    else (false, records)

unfoldable pub resume : Text → Dict Text SubsystemRecord → Bool × Dict Text SubsystemRecord
resume name records = resume_found name (lookup name records) records

-- `quarantined`
unfoldable pub quarantined_names : Dict Text SubsystemRecord → List Text
quarantined_names [] = []
quarantined_names ((name, r) ∷ records) =
    let names = quarantined_names records in
    if is_quarantined r.state then r.name ∷ names else names
