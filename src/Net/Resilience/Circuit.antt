-- ===== src/Net/Resilience/Circuit.antt =====
-- net/resilience.py: `CircuitBreaker`. A call has two steps that take the lock, before and after the
-- function runs, so that calls of several threads interleave as sequences of these steps.
use data_py_os.Base.{ℕ, ◌+◌, Bool, true, false, List, [], ◌∷◌, ltb, leb, if◌then◌else◌}

pub data CircuitState : Type 0 where
  closed open_ half_open : CircuitState

pub record CircuitBreaker : Type 0 where
  pub failure_threshold : ℕ
  pub recovery_timeout : ℕ
  pub state : CircuitState
  pub failure_count : ℕ
  pub last_failure : ℕ

abbrev pub init : ℕ → ℕ → CircuitBreaker
init failure_threshold recovery_timeout = record {
  failure_threshold = failure_threshold;
  recovery_timeout = recovery_timeout;
  state = closed;
  failure_count = 0;
  last_failure = 0;
}

abbrev pub is_open : CircuitState → Bool
is_open open_ = true
is_open _ = false

-- time.time() - self._last_failure > self.recovery_timeout
abbrev pub recovered : ℕ → CircuitBreaker → Bool
recovered now c = ltb (c.last_failure + c.recovery_timeout) now

-- `_check_state`
unfoldable pub check_state : ℕ → CircuitBreaker → CircuitBreaker
check_state now c =
    if is_open c.state then (if recovered now c then record c { state = half_open } else c) else c

unfoldable pub on_success : CircuitBreaker → CircuitBreaker
on_success c = record c { failure_count = 0; state = closed }

unfoldable pub on_failure : ℕ → CircuitBreaker → CircuitBreaker
on_failure now c = record c {
  failure_count = c.failure_count + 1;
  last_failure = now;
  state = if leb c.failure_threshold (c.failure_count + 1) then open_ else c.state;
}

unfoldable pub reset : CircuitBreaker → CircuitBreaker
reset c = record c { state = closed; failure_count = 0 }

-- What a function does when it is called: whether it returns, and the time afterwards.
pub data Run : Type 0 where
  returns : Run
  raises_at : ℕ → Run

-- What `call` does: it refuses without calling, or passes on what the function did.
pub data Outcome : Type 0 where
  refused returned raised : Outcome

abbrev pub after : Run → CircuitBreaker → Outcome × CircuitBreaker
after returns c = (returned, on_success c)
after (raises_at now) c = (raised, on_failure now c)

unfoldable pub call : ℕ → Run → CircuitBreaker → Outcome × CircuitBreaker
call now f c = let c' = check_state now c in if is_open c'.state then (refused, c') else after f c'

-- A step of some thread.
pub data Step : Type 0 where
  enters : ℕ → Step
  succeeds : Step
  fails : ℕ → Step
  resets : Step

unfoldable pub step : Step → CircuitBreaker → CircuitBreaker
step (enters now) c = check_state now c
step succeeds c = on_success c
step (fails now) c = on_failure now c
step resets c = reset c

unfoldable pub steps : List Step → CircuitBreaker → CircuitBreaker
steps [] c = c
steps (s ∷ rest) c = steps rest (step s c)

-- The outcomes of calls one after the other.
unfoldable pub calls : List (ℕ × Run) → CircuitBreaker → List Outcome × CircuitBreaker
calls [] c = ([], c)
calls ((now, f) ∷ rest) c =
    let (o, c') = call now f c in let (os, c'') = calls rest c' in (o ∷ os, c'')
