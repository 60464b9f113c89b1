-- ===== src/Net/Resilience/Rates.antt =====
-- net/resilience.py: how many tokens a bucket grants over time.
use data_py_os.Base.{ℕ, ◌+◌, ◌-◌, ◌*◌, ◌≤◌, ◌≡◌, List, [], ◌∷◌, arith, if◌then◌else◌}
use data_py_os.Net.Resilience.Bucket.{TokenBucket, refill, allow, serve}

-- The times of the requests do not go back, from `t` on.
abbrev pub Monotone : ℕ → List (ℕ × ℕ) → Type 0
Monotone t [] = Unit
Monotone t ((now, n) ∷ rest) = (t ≤ now) × Monotone now rest

allow_bound :
    (now n : ℕ) (b : TokenBucket)
    → let (ok, b') = allow now n b in
      ((if ok then n else 0) + b'.tokens ≤ b.tokens + (now - b.last) * b.rate)
      × (b'.tokens ≤ b.capacity)
      × (b'.rate ≡ b.rate)
      × (b'.capacity ≡ b.capacity)
      × (b'.last ≡ now)
unfolding allow refill
allow_bound now n b = ground arith

elapsed_lem : (a b c r : ℕ) → a ≤ b → b ≤ c → (b - a) * r + (c - b) * r ≡ (c - a) * r
elapsed_lem a b c r h h' =
    let whole : c - a ≡ (b - a) + (c - b) = omega arith in rw whole (omega arith)

-- Over any requests whose times do not go back, the tokens granted and those left are at most the
-- tokens at the start and the rate times the time that passed, and those left are never more than
-- the capacity.
pub serve_bound :
    (reqs : List (ℕ × ℕ)) (b : TokenBucket)
    → Monotone b.last reqs
    → b.tokens ≤ b.capacity
    → let (granted, b') = serve reqs b in
      (granted + b'.tokens ≤ b.tokens + (b'.last - b.last) * b.rate)
      × (b'.tokens ≤ b.capacity)
      × (b.last ≤ b'.last)
unfolding serve
serve_bound [] b m h = (omega arith, h, omega arith)
serve_bound ((now, n) ∷ rest) b m h =
    let b1 = (allow now n b).1 in
    let (taken, full, rate, capacity, last) = allow_bound now n b in
    let later : Monotone b1.last rest = rw last m.1 in
    let (more, bounded, on) = serve_bound rest b1 later (omega (arith, full, capacity)) in
    let b2 = (serve rest b1).1 in
    let more' : (serve rest b1).0 + b2.tokens ≤ b1.tokens + (b2.last - now) * b.rate =
      rw (last, rate) at more in
    let on' : now ≤ b2.last = rw last at on in
    (
      omega (arith, taken, more', elapsed_lem b.last now b2.last b.rate m.0 on'),
      omega (arith, bounded, capacity),
      omega (arith, on', m.0),
    )
