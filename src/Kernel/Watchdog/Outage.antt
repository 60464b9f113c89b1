-- ===== src/Kernel/Watchdog/Outage.antt =====
-- kernel/watchdog.py: a subsystem that stays down is given up.
use data_py_os.Base.{
  ℕ, suc, ◌+◌, ◌-◌, ◌≤◌, ◌≡◌, ◌⊎◌, refl, ◌∙◌, inl, inr, Bool, true, false, not, ◌&&◌, List, [], ◌∷◌,
  nat_beq, ltb, leb, Bool-cases, arith,
}
use data_py_os.Base.Eq.{Text}
use data_py_os.Base.Lists.{length}
use data_py_os.Kernel.Watchdog.{
  SubsystemState, healthy, degraded, restarting, quarantined, unknown, SubsystemRecord,
  is_quarantined, Check, passes, fails, raises, Attempt, returns, throws, restarted, in_backoff,
  next_restart_delay, attempt_restart, unhealthy, check_one, poll, new_record,
}
use data_py_os.Kernel.Watchdog.Quarantine.{Poll, run}

abbrev pub Fails : Check → Type 0
Fails passes = ⊥
Fails _ = Unit

abbrev pub Throws : Attempt → Type 0
Throws returns = ⊥
Throws _ = Unit

-- Nothing helps, and the polls are at least as far apart as the longest back-off, from the time on.
abbrev pub Down : ℕ → List Poll → Type 0
Down t [] = Unit
Down t (p ∷ ps) = (t + 300 ≤ p.now) × Fails p.check × Throws p.attempt × Down p.now ps

-- the polls that are left until the subsystem is given up
abbrev left : SubsystemRecord → ℕ
left r = (2 - r.consecutive_failures) + (6 - r.restart_count)

record Pending (t : ℕ) (r : SubsystemRecord) : Type 0 where
  active : is_quarantined r.state ≡ false
  count : r.restart_count ≤ 5
  last : r.last_restart ≤ t

-- A poll gives the subsystem up or brings that nearer.
abbrev Nears : ℕ → ℕ → SubsystemRecord → Type 0
Nears n t r = (is_quarantined r.state ≡ true) ⊎ (Pending t r × (suc (left r) ≡ n))

is_due :
    (t now : ℕ) (r : SubsystemRecord)
    → r.last_restart ≤ t
    → t + 300 ≤ now
    → in_backoff now r ≡ false
is_due t now r last h =
    let d : next_restart_delay r ≤ 300 = omega arith in
    let x : next_restart_delay r ≤ now - r.last_restart = omega (arith, d, last, h) in
    let e : ltb (now - r.last_restart) (next_restart_delay r) ≡ false = ground (arith, x) in
    rw e (never (ltb 0 r.last_restart))
  where
    never : (b : Bool) → (b && false) ≡ false
    never true = refl
    never false = refl

restarted-Nears :
    (now : ℕ) (a : Attempt) (r : SubsystemRecord)
    → Throws a
    → r.restart_count ≤ 4
    → 2 ≤ r.consecutive_failures
    → Nears (6 - r.restart_count) now (restarted now a r)
restarted-Nears now returns r x h f = absurd x
restarted-Nears now (throws m) r x h f =
    inr
      (record { active = refl; count = omega (arith, h); last = omega arith }, omega (arith, h, f))

attempt_restart-Nears :
    (t now : ℕ) (a : Attempt) (r : SubsystemRecord)
    → Throws a
    → Pending t r
    → t + 300 ≤ now
    → 2 ≤ r.consecutive_failures
    → Nears (6 - r.restart_count) now (attempt_restart now a r).0
unfolding attempt_restart
attempt_restart-Nears t now a r x v h f =
    let due = is_due t now r v.last h in
    elim (Bool-cases (not r.has_restart_fn)) [
      | inl none' ↦ rw none' (inl refl)
      | inr has ↦
          rw (has, due)
            (elim (Bool-cases (leb 5 r.restart_count)) [
              | inl over ↦ rw over (inl refl)
              | inr under ↦ rw under (restarted-Nears now a r x (ground (arith, under)) f)
            ])
    ]

as_many : {m n t : ℕ} {r : SubsystemRecord} → m ≡ n → Nears m t r → Nears n t r
as_many e (inl out) = inl out
as_many e (inr (pending, nearer)) = inr (pending, nearer ∙ e)

unhealthy-Nears :
    (t now : ℕ) (a : Attempt) (r : SubsystemRecord)
    → Throws a
    → Pending t r
    → t + 300 ≤ now
    → Nears (left r) now (unhealthy now a r).0
unfolding unhealthy
unhealthy-Nears t now a r x v h =
    let n = r.consecutive_failures in
    let count = v.count in
    let r1 : SubsystemRecord = record r {
      consecutive_failures = suc n;
      total_failures = suc r.total_failures;
    } in
    let later : r.last_restart ≤ now = omega (arith, v.last, h) in
    elim (Bool-cases (nat_beq (suc n) 1)) [
      | inl first ↦
          let none' : n ≡ 0 = ground (arith, first) in
          rw first (
            inr
              (record { active = refl; count = count; last = later }, omega (arith, none', count)))
      | inr more ↦ rw more (elim (Bool-cases (leb 3 (suc n))) [
        | inl many ↦
            let two : 2 ≤ n = ground (arith, many) in
            let same : 6 - r.restart_count ≡ left r = omega (arith, two, count) in
            let v1 : Pending t r1 = record { active = v.active; count = count; last = v.last } in
            rw many (as_many same (attempt_restart-Nears t now a r1 x v1 h (omega (arith, two))))
        | inr few ↦
            let one : n ≡ 1 = ground (arith, more, few) in
            rw few (
              inr (
                record { active = v.active; count = count; last = later },
                omega (arith, one, count),
              ))
      ])
    ]

poll-Nears :
    (t now : ℕ) (c : Check) (a : Attempt) (r : SubsystemRecord)
    → Fails c
    → Throws a
    → Pending t r
    → t + 300 ≤ now
    → Nears (left r) now (poll now c a r).0
unfolding poll check_one
poll-Nears t now passes a r c x v h = absurd c
poll-Nears t now fails a r c x v h =
    let r1 : SubsystemRecord = record r { last_checked = now } in
    let v1 : Pending t r1 = record { active = v.active; count = v.count; last = v.last } in
    rw v.active (unhealthy-Nears t now a r1 x v1 h)
poll-Nears t now (raises m) a r c x v h =
    let r1 : SubsystemRecord = record r { last_checked = now; error_msg = m } in
    let v1 : Pending t r1 = record { active = v.active; count = v.count; last = v.last } in
    rw v.active (unhealthy-Nears t now a r1 x v1 h)

run_out :
    (ps : List Poll) (r : SubsystemRecord)
    → is_quarantined r.state ≡ true
    → is_quarantined (run ps r).0.state ≡ true
unfolding run poll
run_out [] r out = out
run_out (p ∷ ps) r out = rw out (run_out ps r out)

run-Down :
    (t : ℕ) (ps : List Poll) (r : SubsystemRecord)
    → Down t ps
    → Pending t r
    → left r ≤ length ps
    → is_quarantined (run ps r).0.state ≡ true
unfolding run
run-Down t [] r d v h = absurd (omega (arith, v.count, h))
run-Down t (p ∷ ps) r (far, c, x, d) v h = elim (poll-Nears t p.now p.check p.attempt r c x v far) [
  | inl out ↦ run_out ps (poll p.now p.check p.attempt r).0 out
  | inr (v1, nearer) ↦
      run-Down p.now ps (poll p.now p.check p.attempt r).0 d v1 (omega (arith, nearer, h))
]

-- A registered subsystem whose checks all fail and whose restarts all raise is quarantined after eight polls that are as far
-- apart as the longest back-off, with a restart function or without, and stays so whatever follows of the same kind.
pub gives_up :
    (name : Text) (has_restart_fn : Bool) (ps : List Poll)
    → Down 0 ps
    → 8 ≤ length ps
    → (run ps (new_record name has_restart_fn)).0.state ≡ quarantined
gives_up name has_restart_fn ps d h =
    let v : Pending 0 (new_record name has_restart_fn) = record {
      active = refl;
      count = omega arith;
      last = omega arith;
    } in
    is_out (run ps (new_record name has_restart_fn)).0.state
      (run-Down 0 ps (new_record name has_restart_fn) d v h)
  where
    is_out : (s : SubsystemState) → is_quarantined s ≡ true → s ≡ quarantined
    is_out quarantined e = refl
    is_out healthy e = absurd (cc e)
    is_out degraded e = absurd (cc e)
    is_out restarting e = absurd (cc e)
    is_out unknown e = absurd (cc e)
