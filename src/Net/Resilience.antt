-- ===== src/Net/Resilience.antt =====
-- net/resilience.py: `CircuitBreaker`, `TokenBucket` and `RateLimiter`. Clocks, rates and token
-- counts, which are floats in the source, are natural numbers of a unit, so rounding is left out.
pub mod Circuit
pub mod Bucket
pub mod Limiter
pub mod Opening
pub mod Rates
pub mod Limits
mod Tests
