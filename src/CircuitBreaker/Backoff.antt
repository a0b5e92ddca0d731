-- ===== src/CircuitBreaker/Backoff.antt =====
-- The retry delay of app/core/failover.py stays within its cap.
use noxis_api_provider.Prelude.{ℕ, ◌+◌, ◌≤◌, ◌*◌, ◌^◌, min, Option, none, some, ℤ, pos_part, arith}
use noxis_api_provider.CircuitBreaker.{Random, backoff_delay}

-- What Python documents of `random.uniform(lo, hi)`.
pub record IsUniform (rnd : Random) : Type 0 where
  pub lower : (lo hi : ℕ) → lo ≤ hi → lo ≤ rnd.uniform lo hi
  pub upper : (lo hi : ℕ) → lo ≤ hi → rnd.uniform lo hi ≤ hi

-- Whatever the attempt and whatever Retry-After the upstream sends, a delay is at most the cap and a
-- quarter of a second; with no Retry-After it is at most the cap, and at most base * 2^attempt.
pub backoff_delay_bounds :
    (rnd : Random) (attempt base cap : ℕ) (retry_after : Option ℤ)
    → IsUniform rnd
    → (backoff_delay rnd attempt base cap retry_after ≤ cap + 250_000)
      × (backoff_delay rnd attempt base cap none ≤ cap)
      × (backoff_delay rnd attempt base cap none ≤ base * 2 ^ attempt)
unfolding backoff_delay
backoff_delay_bounds rnd attempt base cap none u =
    let top = u.upper 0 (min cap (base * 2 ^ attempt)) (omega arith) in
    (omega arith, omega arith, omega arith)
backoff_delay_bounds rnd attempt base cap (some r) u =
    let top = u.upper 0 (min cap (base * 2 ^ attempt)) (omega arith) in
    let jitter = u.upper 0 250_000 (omega arith) in (omega arith, omega arith, omega arith)

-- A Retry-After that is positive is waited for, up to the cap.
pub backoff_delay-retry_after :
    (rnd : Random) (attempt base cap : ℕ) (r : ℤ)
    → min cap (pos_part r) ≤ backoff_delay rnd attempt base cap (some r)
unfolding backoff_delay
backoff_delay-retry_after rnd attempt base cap r = omega arith
