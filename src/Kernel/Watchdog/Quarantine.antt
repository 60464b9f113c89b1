-- ===== src/Kernel/Watchdog/Quarantine.antt =====
-- kernel/watchdog.py: how often a subsystem is restarted, and when it is given up.
use data_py_os.Base.{
  ℕ, suc, ◌+◌, ◌≤◌, ◌≡◌, inl, inr, Bool, not, List, [], ◌∷◌, ◌++◌, nat_beq, leb, Bool-cases, arith,
}
use data_py_os.Base.Eq.{Text}
use data_py_os.Kernel.Watchdog.{
  SubsystemRecord, is_quarantined, Check, passes, fails, raises, Attempt, returns, throws, Event,
  call_restart, restarted, in_backoff, attempt_restart, unhealthy, check_one, poll, new_record,
}

-- One look at a subsystem: the time, what its check does and what a restart would do.
pub record Poll : Type 0 where
  pub now : ℕ
  pub check : Check
  pub attempt : Attempt

unfoldable pub run : List Poll → SubsystemRecord → SubsystemRecord × List Event
run [] r = (r, [])
run (p ∷ ps) r =
    let (r1, es) = poll p.now p.check p.attempt r in
    let (r2, later) = run ps r1 in (r2, es ++ later)

abbrev pub is_restart : Event → ℕ
is_restart call_restart = 1
is_restart _ = 0

-- the calls of the restart function
abbrev pub restarts : List Event → ℕ
restarts [] = 0
restarts (e ∷ es) = is_restart e + restarts es

restarts-append : (xs ys : List Event) → restarts (xs ++ ys) ≡ restarts xs + restarts ys
restarts-append [] ys = omega arith
restarts-append (x ∷ xs) ys = let rest = restarts-append xs ys in omega (arith, rest)

-- Every call of the restart function is counted, up to five.
abbrev Counted : SubsystemRecord → SubsystemRecord × List Event → Type 0
Counted r (r', es) = (r'.restart_count ≡ restarts es + r.restart_count) × (r'.restart_count ≤ 5)

restarted-Counted :
    (now : ℕ) (a : Attempt) (r : SubsystemRecord)
    → r.restart_count ≤ 4
    → Counted r (restarted now a r, call_restart ∷ [])
restarted-Counted now returns r h = (omega arith, omega (arith, h))
restarted-Counted now (throws m) r h = (omega arith, omega (arith, h))

still : (r : SubsystemRecord) → r.restart_count ≤ 5 → Counted r (r, [])
still r h = (omega arith, h)

attempt_restart-Counted :
    (now : ℕ) (a : Attempt) (r : SubsystemRecord)
    → r.restart_count ≤ 5
    → Counted r (attempt_restart now a r)
unfolding attempt_restart
attempt_restart-Counted now a r h = elim (Bool-cases (not r.has_restart_fn)) [
  | inl none' ↦ rw none' (omega arith, h)
  | inr has ↦ rw has (elim (Bool-cases (in_backoff now r)) [
    | inl waits ↦ rw waits (still r h)
    | inr due ↦ rw due (elim (Bool-cases (leb 5 r.restart_count)) [
      | inl over ↦ rw over (omega arith, h)
      | inr under ↦ rw under (restarted-Counted now a r (ground (arith, under)))
    ])
  ])
]

unhealthy-Counted :
    (now : ℕ) (a : Attempt) (r : SubsystemRecord)
    → r.restart_count ≤ 5
    → Counted r (unhealthy now a r)
unfolding unhealthy
unhealthy-Counted now a r h =
    let r1 : SubsystemRecord = record r {
      consecutive_failures = suc r.consecutive_failures;
      total_failures = suc r.total_failures;
    } in
    elim (Bool-cases (nat_beq (suc r.consecutive_failures) 1)) [
      | inl first ↦ rw first (omega arith, h)
      | inr more ↦ rw more (elim (Bool-cases (leb 3 (suc r.consecutive_failures))) [
        | inl many ↦ rw many (attempt_restart-Counted now a r1 h)
        | inr few ↦ rw few (omega arith, h)
      ])
    ]

check_one-Counted :
    (now : ℕ) (c : Check) (a : Attempt) (r : SubsystemRecord)
    → r.restart_count ≤ 5
    → Counted r (check_one now c a r)
unfolding check_one
check_one-Counted now passes a r h = (omega arith, h)
check_one-Counted now fails a r h = unhealthy-Counted now a (record r { last_checked = now }) h
check_one-Counted now (raises m) a r h =
    unhealthy-Counted now a (record r { last_checked = now; error_msg = m }) h

poll-Counted :
    (now : ℕ) (c : Check) (a : Attempt) (r : SubsystemRecord)
    → r.restart_count ≤ 5
    → Counted r (poll now c a r)
unfolding poll
poll-Counted now c a r h = elim (Bool-cases (is_quarantined r.state)) [
  | inl out ↦ rw out (still r h)
  | inr in' ↦ rw in' (check_one-Counted now c a r h)
]

run-Counted : (ps : List Poll) (r : SubsystemRecord) → r.restart_count ≤ 5 → Counted r (run ps r)
unfolding run
run-Counted [] r h = still r h
run-Counted (p ∷ ps) r h =
    let (r1, es) = poll p.now p.check p.attempt r in
    let (here, h1) = poll-Counted p.now p.check p.attempt r h in
    let (later, h2) = run-Counted ps r1 h1 in
    let both = restarts-append es (run ps r1).1 in (omega (arith, here, later, both), h2)

-- However long a registered subsystem is polled, and whatever its checks and restarts do: its restart function is called
-- at most five times, the calls that succeeded included, and the record counts these calls.
pub restarts_bounded :
    (name : Text) (has_restart_fn : Bool) (ps : List Poll)
    → let (r, es) = run ps (new_record name has_restart_fn) in
      (r.restart_count ≡ restarts es) × (restarts es ≤ 5)
restarts_bounded name has_restart_fn ps =
    let start = new_record name has_restart_fn in
    let (counted, h) = run-Counted ps start (omega arith) in
    (omega (arith, counted), omega (arith, counted, h))
