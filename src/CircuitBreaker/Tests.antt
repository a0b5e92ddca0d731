-- ===== src/CircuitBreaker/Tests.antt =====
-- The theorems on app/core/failover.py at concrete inputs.
use noxis_api_provider.Prelude.{
  ℕ, ◌+◌, ◌*◌, ◌^◌, ◌≤◌, ◌≡◌, ◌≢◌, refl, true, false, none, some, List, [], ◌∷◌, length, pos, leb,
  if◌then◌else◌, arith,
}
use noxis_api_provider.Provider.{Provider, new_provider, closed, open_, half_open}
use noxis_api_provider.Samples.{breaker, provider, highest_draw}
use noxis_api_provider.CircuitBreaker.{backoff_delay}
use noxis_api_provider.CircuitBreaker.Transitions.{allows, fails, step, run, Moves, step-Moves}
use noxis_api_provider.CircuitBreaker.Trips.{failing, failing_opens}
use noxis_api_provider.CircuitBreaker.Trials.{granted, granted-le, exhausted_forever}
use noxis_api_provider.CircuitBreaker.Backoff.{backoff_delay_bounds}

-- A circuit that is HALF_OPEN with its only trial in use.
abbrev stuck : Provider
stuck = record provider { circuit_state = half_open; half_open_calls_in_flight = 1 }

step-Moves_example : Moves breaker stuck (fails 7 true) (step breaker stuck (fails 7 true))
step-Moves_example = step-Moves breaker stuck (fails 7 true)

-- Five failures in a row, of which the fifth is the threshold.
abbrev times : List ℕ
times = 1 ∷ 2 ∷ 3 ∷ 4 ∷ 5 ∷ []

failing_opens_example :
    (run breaker provider (failing times)).circuit_state
    ≡ (if leb 5 (provider.consecutive_failures + length times) then open_ else closed)
unfolding new_provider
failing_opens_example = failing_opens breaker provider times refl (omega arith)

ne_closed : half_open ≢ closed
ne_closed = ground arith

granted-le_example : granted breaker stuck (allows 1 ∷ fails 2 false ∷ allows 3 ∷ []) ≤ 1
granted-le_example =
    granted-le breaker stuck (allows 1 ∷ fails 2 false ∷ allows 3 ∷ []) ne_closed (refl, tt)

exhausted_forever_example :
    (run breaker stuck (allows 1 ∷ fails 2 false ∷ allows 3 ∷ []) ≡ stuck)
    × (granted breaker stuck (allows 1 ∷ fails 2 false ∷ allows 3 ∷ []) ≡ 0)
exhausted_forever_example =
    exhausted_forever breaker stuck (allows 1 ∷ fails 2 false ∷ allows 3 ∷ []) refl (omega arith)
      (refl, tt)

backoff_delay_bounds_example :
    (backoff_delay highest_draw 3 500_000 8_000_000 (some (pos 60_000_000)) ≤ 8_000_000 + 250_000)
    × (backoff_delay highest_draw 3 500_000 8_000_000 none ≤ 8_000_000)
    × (backoff_delay highest_draw 3 500_000 8_000_000 none ≤ 500_000 * 2 ^ 3)
backoff_delay_bounds_example =
    backoff_delay_bounds highest_draw 3 500_000 8_000_000 (some (pos 60_000_000))
      (record { lower = λ lo hi h. h; upper = λ lo hi h. omega arith })
