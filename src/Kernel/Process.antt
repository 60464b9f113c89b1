-- ===== src/Kernel/Process.antt =====
-- kernel/process.py: the process table and the methods of `ProcessManager`. The clock and the two
-- random loads of `spawn` are arguments (the loads in tenths). Process identifiers are natural.
pub mod Table
pub mod Calls
pub mod Queries
mod Tests
use data_py_os.Base.{
  ℕ, ◌+◌, Bool, true, false, Option, none, some, List, [], ◌∷◌, ◌++◌, if◌then◌else◌,
}
use data_py_os.Base.Eq.{◌==◌, nat_eq, text_eq, Text, chars}
use data_py_os.Base.Result.{Result, ok, err}
use data_py_os.Base.Int.{ℤ, sub_ℕ}
use data_py_os.Base.Dict.{Dict, lookup, insert, erase, has, size, values}
use data_py_os.Base.Lists.{elem, keep}
use data_py_os.Base.Sort.{sort_by}

pub record Process : Type 0 where
  pub pid : ℕ
  pub name : Text
  pub user : Text
  pub cmd : Text
  pub state : Text
  pub cpu : ℕ
  pub mem : ℕ
  pub start : ℕ
  pub nice : ℕ

-- the property `runtime`, at the time `now`
unfoldable pub runtime : ℕ → Process → ℤ
runtime now p = sub_ℕ now p.start

abbrev pub protected_pids : List ℕ
protected_pids = 1 ∷ 2 ∷ 3 ∷ 4 ∷ []

pub record ProcessManager : Type 0 where
  pub table : Dict ℕ Process
  pub next_pid : ℕ

abbrev pub init : ProcessManager
init = record { table = []; next_pid = 5 }

pub data Error : Type 0 where
  permission_error process_lookup_error : Error

-- cmd or f"/bin/{name}"
abbrev pub default_cmd : Text → Text → Text
default_cmd [] name = chars "/bin/" ++ name
default_cmd (c ∷ cmd) name = c ∷ cmd

-- The arguments of `spawn` other than `pid`, with the clock and the random loads.
pub record Request : Type 0 where
  pub name : Text
  pub user : Text
  pub cmd : Text
  pub state : Text
  pub now : ℕ
  pub cpu : ℕ
  pub mem : ℕ

abbrev pub make : ℕ → Request → Process
make pid r = record {
  pid = pid;
  name = r.name;
  user = r.user;
  cmd = default_cmd r.cmd r.name;
  state = r.state;
  cpu = r.cpu;
  mem = r.mem;
  start = r.now;
  nice = 0;
}

-- The pid, and the new state.
unfoldable pub spawn : Option ℕ → Request → ProcessManager → ℕ × ProcessManager
spawn none r m = (
  m.next_pid,
  record { table = insert m.next_pid (make m.next_pid r) m.table; next_pid = m.next_pid + 1 },
)
spawn (some pid) r m =
    (pid, record { table = insert pid (make pid r) m.table; next_pid = m.next_pid })

-- `self._table[pid].state = "Z"` on the process that the lookup found
abbrev pub mark_zombie : ℕ → Option Process → Dict ℕ Process → Dict ℕ Process
mark_zombie pid none table = table
mark_zombie pid (some p) table = insert pid (record p { state = chars "Z" }) table

unfoldable pub kill : ℕ → ProcessManager → Result Error Bool × ProcessManager
kill pid m =
    if elem pid protected_pids
    then (err permission_error, m)
    else if has pid m.table
    then (ok true, record m { table = erase pid (mark_zombie pid (lookup pid m.table) m.table) })
    else (err process_lookup_error, m)

unfoldable pub get : ℕ → ProcessManager → Option Process
get pid m = lookup pid m.table

unfoldable pub all : ProcessManager → List Process
all m = sort_by (λ p. p.pid) (values m.table)

unfoldable pub by_user : Text → ProcessManager → List Process
by_user user m = keep (λ p. p.user == user) (values m.table)

unfoldable pub count : ProcessManager → ℕ
count m = size m.table
