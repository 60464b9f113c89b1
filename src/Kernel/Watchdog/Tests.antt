-- ===== src/Kernel/Watchdog/Tests.antt =====
-- kernel/watchdog.py: runs, and the theorems at concrete inputs.
use data_py_os.Base.{ℕ, ◌≤◌, ◌≡◌, refl, true, List, [], ◌∷◌, arith}
use data_py_os.Base.Eq.{chars}
use data_py_os.Kernel.Watchdog.{
  quarantined, fails, raises, passes, returns, throws, new_record, poll, check_one, unhealthy,
  attempt_restart,
}
use data_py_os.Kernel.Watchdog.Quarantine.{Poll, run, restarts, restarts_bounded}
use data_py_os.Kernel.Watchdog.Outage.{gives_up}

abbrev down : ℕ → Poll
down now = record { now = now; check = fails; attempt = throws (chars "no") }

abbrev outage : List Poll
outage =
    down 300 ∷ down 600 ∷ down 900 ∷ down 1200 ∷ down 1500 ∷ down 1800 ∷ down 2100 ∷ down 2400 ∷ []

-- an outage that the first restart ends, then a check that passes
abbrev recovered : List Poll
recovered =
    down 300
    ∷ down 310
    ∷ (record { now = 320; check = raises (chars "e"); attempt = returns })
    ∷ (record { now = 330; check = passes; attempt = returns })
    ∷ []

restarts_bounded_example :
    let (r, es) = run recovered (new_record (chars "sos") true) in
    (r.restart_count ≡ restarts es) × (restarts es ≤ 5)
restarts_bounded_example = restarts_bounded (chars "sos") true recovered

-- That run calls the restart function once.
one_restart : restarts (run recovered (new_record (chars "sos") true)).1 ≡ 1
unfolding run poll check_one unhealthy attempt_restart
one_restart = refl

gives_up_example : (run outage (new_record (chars "sos") true)).0.state ≡ quarantined
gives_up_example =
    gives_up (chars "sos") true outage
      (
        omega arith,
        tt,
        tt,
        (
          omega arith,
          tt,
          tt,
          (
            omega arith,
            tt,
            tt,
            (
              omega arith,
              tt,
              tt,
              (
                omega arith,
                tt,
                tt,
                (omega arith, tt, tt, (omega arith, tt, tt, (omega arith, tt, tt, tt))),
              ),
            ),
          ),
        ),
      )
      (omega arith)
