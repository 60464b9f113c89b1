-- ===== src/Net/Resilience/Tests.antt =====
-- net/resilience.py: the theorems at concrete inputs.
use data_py_os.Base.{◌+◌, ◌-◌, ◌*◌, ◌≤◌, ◌≡◌, refl, [], ◌∷◌, arith}
use data_py_os.Base.Eq.{text_eq, Text, chars}
use data_py_os.Net.Resilience.Circuit.{
  CircuitBreaker, init, open_, closed, returns, raises_at, returned, raised, refused, on_failure,
  call, calls,
}
use data_py_os.Net.Resilience.Opening.{IsValid, fail_all, failures_refuse, probe}
use data_py_os.Net.Resilience.Bucket
use data_py_os.Net.Resilience.Bucket.{TokenBucket, serve}
use data_py_os.Net.Resilience.Rates.{serve_bound}

init-IsValid : IsValid (init 2 60)
init-IsValid = record { positive = omega arith; agrees = refl }

failures_refuse_example :
    let c' = on_failure 5 (fail_all (3 ∷ []) (init 2 60)) in
    calls ((6, returns) ∷ (65, returns) ∷ []) c' ≡ (refused ∷ refused ∷ [], c')
failures_refuse_example =
    failures_refuse (3 ∷ []) 5 ((6, returns) ∷ (65, returns) ∷ []) (init 2 60) (omega arith)
      (omega arith, (omega arith, tt))

abbrev opened : CircuitBreaker
opened = record {
  failure_threshold = 2;
  recovery_timeout = 60;
  state = open_;
  failure_count = 2;
  last_failure = 5;
}

probe_example :
    ((call 66 returns opened).0 ≡ returned)
    × ((call 66 returns opened).1.state ≡ closed)
    × ((call 66 returns opened).1.failure_count ≡ 0)
    × ((call 66 (raises_at 67) opened).0 ≡ raised)
    × ((call 66 (raises_at 67) opened).1.state ≡ open_)
    × ((call 66 (raises_at 67) opened).1.last_failure ≡ 67)
probe_example =
    probe 66 67 opened (record { positive = omega arith; agrees = refl }) refl (omega arith)

serve_bound_example :
    let b = Bucket.init 10 20 0 in
    let (granted, b') = serve ((1, 15) ∷ (1, 15) ∷ (2, 15) ∷ []) b in
    (granted + b'.tokens ≤ b.tokens + (b'.last - b.last) * b.rate)
    × (b'.tokens ≤ b.capacity)
    × (b.last ≤ b'.last)
serve_bound_example =
    serve_bound ((1, 15) ∷ (1, 15) ∷ (2, 15) ∷ []) (Bucket.init 10 20 0)
      (omega arith, (omega arith, (omega arith, tt))) (omega arith)

abbrev ip : Text
ip = chars "10.0.0.1"
