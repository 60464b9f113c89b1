-- ===== src/Net/Resilience/Limits.antt =====
-- net/resilience.py: what a request does to the buckets of the limiter.
use data_py_os.Base.{ℕ, ◌+◌, ◌≡◌, refl, not, ◌&&◌, some, arith, if◌then◌else◌, Bool-cases, inl, inr}
use data_py_os.Base.Eq.{◌==◌, text_eq, text_beq_iff, Text}
use data_py_os.Base.Dict.{lookup, lookup-insert}
use data_py_os.Net.Resilience.Bucket
use data_py_os.Net.Resilience.Bucket.{TokenBucket}
use data_py_os.Net.Resilience.Limiter.{RateLimiter, allow, allow_ip, bucket_or_new, count_or_zero}

-- A request passes exactly if the global bucket grants it and then the bucket of its address, a new
-- one if it has none. The global bucket is charged in either case, the bucket of the address only if
-- the global one grants, no other address is touched, and a rejection is counted exactly if only the
-- bucket of the address refuses.
pub allow_lem :
    (now : ℕ) (ip other : Text) (l : RateLimiter)
    → let g = Bucket.allow now 1 l.global in
      let b = Bucket.allow now 1 (bucket_or_new (lookup ip l.per_ip) l.per_ip_rps now) in
      let (passed, l') = allow now ip l in
      (passed ≡ (g.0 && b.0))
      × (l'.global ≡ g.1)
      × (lookup other l'.per_ip ≡ (if g.0 && other == ip then some b.1 else lookup other l.per_ip))
      × (count_or_zero (lookup other l'.rejected)
          ≡ count_or_zero (lookup other l.rejected)
            + (if g.0 && not b.0 && other == ip then 1 else 0))
unfolding allow allow_ip
allow_lem now ip other l =
    let b = Bucket.allow now 1 (bucket_or_new (lookup ip l.per_ip) l.per_ip_rps now) in
    elim (Bool-cases (Bucket.allow now 1 l.global).0) [
      | inr refuses ↦ rw refuses (refl, refl, refl, omega arith)
      | inl grants ↦ elim (Bool-cases b.0) [
        | inl passes ↦
            rw (grants, passes) (refl, refl, lookup-insert other ip b.1 l.per_ip, omega arith)
        | inr fails ↦
            rw (grants, fails)
              (
                refl,
                refl,
                lookup-insert other ip b.1 l.per_ip,
                ground (
                  arith,
                  lookup-insert other ip (count_or_zero (lookup ip l.rejected) + 1) l.rejected,
                  text_beq_iff other ip,
                ),
              )
      ]
    ]
