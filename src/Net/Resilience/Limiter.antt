-- ===== src/Net/Resilience/Limiter.antt =====
-- net/resilience.py: `RateLimiter`.
use data_py_os.Base.{ℕ, ◌+◌, ◌*◌, Bool, true, false, Option, none, some, [], if◌then◌else◌}
use data_py_os.Base.Eq.{Text, text_eq}
use data_py_os.Base.Dict.{Dict, lookup, insert}
use data_py_os.Net.Resilience.Bucket
use data_py_os.Net.Resilience.Bucket.{TokenBucket}

pub record RateLimiter : Type 0 where
  pub global : TokenBucket
  pub per_ip : Dict Text TokenBucket
  pub per_ip_rps : ℕ
  pub rejected : Dict Text ℕ

-- The clock is the last argument.
abbrev pub init : ℕ → ℕ → ℕ → RateLimiter
init global_rps per_ip_rps now = record {
  global = Bucket.init global_rps (global_rps * 2) now;
  per_ip = [];
  per_ip_rps = per_ip_rps;
  rejected = [];
}

-- the bucket of an address, a new one if it has none
abbrev pub bucket_or_new : Option TokenBucket → ℕ → ℕ → TokenBucket
bucket_or_new none rps now = Bucket.init rps (rps * 3) now
bucket_or_new (some b) rps now = b

abbrev pub count_or_zero : Option ℕ → ℕ
count_or_zero none = 0
count_or_zero (some n) = n

-- the second half of `allow`, once the global bucket has granted
unfoldable pub allow_ip : ℕ → Text → RateLimiter → Bool × RateLimiter
allow_ip now ip l =
    let (ok, b) = Bucket.allow now 1 (bucket_or_new (lookup ip l.per_ip) l.per_ip_rps now) in
    let l' = record l { per_ip = insert ip b l.per_ip } in
    if ok then (true, l') else (
      false,
      record l' { rejected = insert ip (count_or_zero (lookup ip l.rejected) + 1) l.rejected },
    )

unfoldable pub allow : ℕ → Text → RateLimiter → Bool × RateLimiter
unfolding allow_ip
allow now ip l =
    let (ok, g) = Bucket.allow now 1 l.global in
    let l' = record l { global = g } in if ok then allow_ip now ip l' else (false, l')

unfoldable pub set_limit : Text → ℕ → ℕ → RateLimiter → RateLimiter
set_limit ip rps now l = record l { per_ip = insert ip (Bucket.init rps (rps * 3) now) l.per_ip }
