-- ===== src/CircuitBreaker.antt =====
-- app/core/failover.py: the circuit breaker, which keeps its state on the provider, and the
-- retry delay. A call takes the value of `time.time()` that it reads.
pub mod Transitions
pub mod Trips
pub mod Trials
pub mod Backoff
pub mod Tests
use noxis_api_provider.Prelude.{
  ℕ, ◌+◌, ◌*◌, ◌^◌, Bool, true, false, Option, none, some, ltb, leb, ℤ, pos_part, min,
  if◌then◌else◌,
}
use noxis_api_provider.Provider.{
  Provider, ProviderHealth, CircuitState, closed, open_, half_open, healthy, rate_limited, cooldown,
  circuit_open,
}

pub record CircuitBreaker : Type 0 where
  pub failure_threshold : ℕ
  pub cooldown_seconds : ℕ
  pub half_open_max_calls : ℕ

-- The HALF_OPEN branch of `allow_request`.
unfoldable pub allow_half_open : CircuitBreaker → Provider → Bool × Provider
allow_half_open b p =
    if ltb p.half_open_calls_in_flight b.half_open_max_calls
    then (true, record p { half_open_calls_in_flight = p.half_open_calls_in_flight + 1 })
    else (false, p)

-- `allow_request`, by the circuit's state; the recursive call of the OPEN branch finds HALF_OPEN.
unfoldable pub allow_in : CircuitState → CircuitBreaker → ℕ → Provider → Bool × Provider
unfolding allow_half_open
allow_in closed b now p = (true, p)
allow_in open_ b now p =
    if leb p.cooldown_until now
    then allow_half_open b (record p { circuit_state = half_open; half_open_calls_in_flight = 0 })
    else (false, p)
allow_in half_open b now p = allow_half_open b p

unfoldable pub allow_request : CircuitBreaker → ℕ → Provider → Bool × Provider
unfolding allow_in
allow_request b now p = allow_in p.circuit_state b now p

-- `if provider.health in (RATE_LIMITED, COOLDOWN, CIRCUIT_OPEN)`
unfoldable pub health_after_success : ProviderHealth → ProviderHealth
health_after_success rate_limited = healthy
health_after_success cooldown = healthy
health_after_success circuit_open = healthy
health_after_success h = h

unfoldable pub record_success : Provider → Provider
unfolding health_after_success
record_success p = record p {
  consecutive_failures = 0;
  circuit_state = closed;
  half_open_calls_in_flight = 0;
  health = health_after_success p.health;
}

unfoldable pub trip : CircuitBreaker → ℕ → Provider → Provider
trip b now p = record p {
  circuit_state = open_;
  cooldown_until = now + b.cooldown_seconds;
  health = circuit_open;
}

-- A transient failure, by the circuit's state, once it is counted.
unfoldable pub count_failure : CircuitState → CircuitBreaker → ℕ → Provider → Provider
unfolding trip
count_failure half_open b now p = trip b now p
count_failure _ b now p = if leb b.failure_threshold p.consecutive_failures then trip b now p else p

unfoldable pub record_failure : CircuitBreaker → ℕ → Bool → Provider → Provider
unfolding count_failure
record_failure b now transient p =
    if transient
    then count_failure p.circuit_state b now
        (record p { consecutive_failures = p.consecutive_failures + 1 })
    else p

-- `random.uniform`, of Python's library; durations are whole microseconds.
pub record Random : Type 0 where
  pub uniform : ℕ → ℕ → ℕ

unfoldable pub backoff_delay : Random → ℕ → ℕ → ℕ → Option ℤ → ℕ
backoff_delay rnd attempt base cap none = rnd.uniform 0 (min cap (base * 2 ^ attempt))
backoff_delay rnd attempt base cap (some retry_after) =
    min cap (pos_part retry_after) + rnd.uniform 0 250_000
