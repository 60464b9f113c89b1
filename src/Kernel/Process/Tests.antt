-- ===== src/Kernel/Process/Tests.antt =====
-- kernel/process.py: the theorems at concrete inputs.
use data_py_os.Base.{◌≡◌, refl, none, some, List, [], ◌∷◌}
use data_py_os.Base.Eq.{nat_eq, text_eq, chars}
use data_py_os.Kernel.Process.{ProcessManager, init, Request, make, spawn, kill, get, count}
use data_py_os.Kernel.Process.Calls.{
  Call, start, stop, serve, serve_calls-IsValid, serve_keeps_protected,
}

abbrev editor : Request
editor = record {
  name = chars "ed";
  user = chars "ann";
  cmd = [];
  state = chars "S";
  now = 7;
  cpu = 3;
  mem = 25;
}

-- The kernel's processes, as the boot spawns them.
abbrev boot : List Call
boot =
    start (some 1) editor
    ∷ start (some 2) editor
    ∷ start (some 3) editor
    ∷ start (some 4) editor
    ∷ start (some 5) editor
    ∷ []

abbrev booted : ProcessManager
booted = serve boot init

abbrev calls : List Call
calls = start none editor ∷ start (some 9) editor ∷ start none editor ∷ stop 5 ∷ stop 2 ∷ []

table_lem :
    let m = serve calls booted in
    (get 5 m ≡ none) × (get 6 m ≡ some (make 6 editor)) × (count m ≡ 6)
unfolding serve spawn kill get count
table_lem = (refl, refl, refl)

serve_keeps_protected_example : get 1 (serve calls booted) ≡ get 1 booted
serve_keeps_protected_example =
    serve_keeps_protected calls 1 booted (serve_calls-IsValid boot) refl (λ e. absurd (cc e), tt)
