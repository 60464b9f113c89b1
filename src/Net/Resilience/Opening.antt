-- ===== src/Net/Resilience/Opening.antt =====
-- net/resilience.py: when a circuit opens, what it then refuses, and how it recovers.
use data_py_os.Base.{
  ℕ, ◌+◌, ◌≤◌, ◌<◌, ◌≡◌, refl, ap, Bool, true, false, List, [], ◌∷◌, arith, ltb, leb, map,
}
use data_py_os.Base.Lists.{length, All}
use data_py_os.Net.Resilience.Circuit.{
  CircuitBreaker, CircuitState, closed, open_, is_open, recovered, check_state, on_success,
  on_failure, reset, Run, returns, raises_at, refused, returned, raised, call, Step, enters,
  succeeds, fails, resets, step, steps, calls,
}

abbrev pub is_closed : CircuitState → Bool
is_closed closed = true
is_closed _ = false

-- The circuit is closed exactly if the failures are fewer than the threshold.
pub record IsValid (c : CircuitBreaker) : Type 0 where
  pub positive : 0 < c.failure_threshold
  pub agrees : is_closed c.state ≡ ltb c.failure_count c.failure_threshold

step-IsValid : (s : Step) (c : CircuitBreaker) → IsValid c → IsValid (step s c)
unfolding step check_state on_success on_failure reset
step-IsValid (enters now) c v = record {
  positive = ground (arith, v.positive);
  agrees = ground (arith, v.agrees);
}
step-IsValid succeeds c v = record { positive = v.positive; agrees = ground (arith, v.positive) }
step-IsValid (fails now) c v = record { positive = v.positive; agrees = ground (arith, v.agrees) }
step-IsValid resets c v = record { positive = v.positive; agrees = ground (arith, v.positive) }

-- Whatever the order in which threads enter, succeed, fail and reset, a circuit that starts valid is
-- closed exactly while it has fewer failures than its threshold.
pub steps-IsValid : (ss : List Step) (c : CircuitBreaker) → IsValid c → IsValid (steps ss c)
unfolding steps
steps-IsValid [] c v = v
steps-IsValid (s ∷ ss) c v = steps-IsValid ss (step s c) (step-IsValid s c v)

-- failures at these times, with nothing between them
abbrev pub fail_all : List ℕ → CircuitBreaker → CircuitBreaker
fail_all ts c = steps (map fails ts) c

fail_all_lem :
    (ts : List ℕ) (c : CircuitBreaker)
    → ((fail_all ts c).failure_count ≡ c.failure_count + length ts)
      × ((fail_all ts c).failure_threshold ≡ c.failure_threshold)
      × ((fail_all ts c).recovery_timeout ≡ c.recovery_timeout)
unfolding steps step on_failure
fail_all_lem [] c = (omega arith, refl, refl)
fail_all_lem (t ∷ ts) c =
    let (count, threshold, timeout) = fail_all_lem ts (on_failure t c) in
    (omega (arith, count), threshold, timeout)

All-refused :
    (later : List (ℕ × Run)) (c : CircuitBreaker)
    → is_open c.state ≡ true
    → All (λ r. r.0 ≤ c.last_failure + c.recovery_timeout) later
    → calls later c ≡ (map (λ r. refused) later, c)
unfolding calls call check_state
All-refused [] c o h = refl
All-refused ((now, f) ∷ rest) c o h =
    let early : recovered now c ≡ false = ground (arith, h.0) in
    rw (o, early, o) (ap (λ z. (refused ∷ z.0, z.1)) (All-refused rest c o h.1))

-- After failures that reach the threshold with no success between them, the last of them at time
-- `t`, every call up to `t` and the timeout is refused: the function is not called, and nothing
-- changes.
pub failures_refuse :
    (ts : List ℕ) (t : ℕ) (later : List (ℕ × Run)) (c : CircuitBreaker)
    → c.failure_threshold ≤ c.failure_count + length ts + 1
    → All (λ r. r.0 ≤ t + c.recovery_timeout) later
    → let c' = on_failure t (fail_all ts c) in calls later c' ≡ (map (λ r. refused) later, c')
unfolding on_failure
failures_refuse ts t later c many early =
    let c1 = fail_all ts c in
    let (count, threshold, timeout) = fail_all_lem ts c in
    let full : leb c1.failure_threshold (c1.failure_count + 1) ≡ true =
      ground (arith, count, threshold, many) in
    All-refused later (on_failure t c1) (rw full refl) (rw timeout early)

-- Once the timeout has passed, an open circuit lets a call through. If the function returns, the
-- circuit is closed and the failures are forgotten; if it raises, the circuit is open again from the
-- time of that failure on.
pub probe :
    (now t : ℕ) (c : CircuitBreaker)
    → IsValid c
    → c.state ≡ open_
    → c.last_failure + c.recovery_timeout < now
    → ((call now returns c).0 ≡ returned)
      × ((call now returns c).1.state ≡ closed)
      × ((call now returns c).1.failure_count ≡ 0)
      × ((call now (raises_at t) c).0 ≡ raised)
      × ((call now (raises_at t) c).1.state ≡ open_)
      × ((call now (raises_at t) c).1.last_failure ≡ t)
unfolding call check_state on_success on_failure
probe now t c v o late =
    let ready : recovered now c ≡ true = ground (arith, late) in
    let full : leb c.failure_threshold (c.failure_count + 1) ≡ true = ground (arith, v.agrees, o) in
    rw (o, ready) (refl, refl, refl, refl, rw full refl, refl)
