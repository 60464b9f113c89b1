-- ===== src/Net/Resilience/Bucket.antt =====
-- net/resilience.py: `TokenBucket`. The clock is monotonic: it never goes back.
use data_py_os.Base.{ℕ, ◌+◌, ◌-◌, ◌*◌, Bool, true, false, List, [], ◌∷◌, leb, min, if◌then◌else◌}

pub record TokenBucket : Type 0 where
  pub rate : ℕ
  pub capacity : ℕ
  pub tokens : ℕ
  pub last : ℕ

abbrev pub init : ℕ → ℕ → ℕ → TokenBucket
init rate capacity now = record { rate = rate; capacity = capacity; tokens = capacity; last = now }

-- the tokens of a clock reading, before any are taken
unfoldable pub refill : ℕ → TokenBucket → TokenBucket
refill now b = record b { tokens = min b.capacity (b.tokens + (now - b.last) * b.rate); last = now }

unfoldable pub allow : ℕ → ℕ → TokenBucket → Bool × TokenBucket
unfolding refill
allow now n b =
    let b' = refill now b in
    if leb n b'.tokens then (true, record b' { tokens = b'.tokens - n }) else (false, b')

-- The tokens granted to requests, each with its time and the tokens that it asks for.
unfoldable pub serve : List (ℕ × ℕ) → TokenBucket → ℕ × TokenBucket
serve [] b = (0, b)
serve ((now, n) ∷ rest) b =
    let (ok, b') = allow now n b in
    let (granted, b'') = serve rest b' in ((if ok then n else 0) + granted, b'')
