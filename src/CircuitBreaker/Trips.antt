-- ===== src/CircuitBreaker/Trips.antt =====
-- When the circuit of app/core/failover.py opens, and how long it stays open.
use mathlib.Core.Path.{subst}
use native.Mathlib.Nat.{add-zero}
use noxis_api_provider.Prelude.{
  ℕ, ◌+◌, ◌<◌, ◌≡◌, refl, true, false, List, [], ◌∷◌, map, length, leb, ltb, inl, inr, Bool-cases,
  if◌then◌else◌, arith,
}
use noxis_api_provider.Provider.{Provider, closed, open_, half_open}
use noxis_api_provider.CircuitBreaker.{
  CircuitBreaker, allow_request, record_failure, trip, allow_half_open,
}
use noxis_api_provider.CircuitBreaker.Transitions.{Call, fails, step, run}

-- Transient failures at the given times.
abbrev pub failing : List ℕ → List Call
failing = map λ now. fails now true

-- The state of a breaker that has met failures only.
record Failing (b : CircuitBreaker) (p : Provider) (n : ℕ) : Type 0 where
  counted : p.consecutive_failures ≡ n
  state : p.circuit_state ≡ (if leb b.failure_threshold n then open_ else closed)

Failing-step :
    (b : CircuitBreaker) (p : Provider) (n now : ℕ)
    → Failing b p n
    → Failing b (record_failure b now true p) (n + 1)
unfolding record_failure
Failing-step b p n now f = elim (Bool-cases (leb b.failure_threshold n)) [
  | inl many ↦ record { counted = ground arith; state = ground arith }
  | inr few ↦ record { counted = ground arith; state = ground arith }
]

Failing-run :
    (b : CircuitBreaker) (p : Provider) (n : ℕ) (times : List ℕ)
    → Failing b p n
    → Failing b (run b p (failing times)) (n + length times)
unfolding run step
Failing-run b p n [] f = record {
  counted = omega (arith, f.counted);
  state = rw (add-zero n) f.state;
}
Failing-run b p n (now ∷ times) f =
    subst (Failing b (run b (record_failure b now true p) (failing times))) (omega arith)
      (Failing-run b (record_failure b now true p) (n + 1) times (Failing-step b p n now f))

-- A closed circuit with fewer failures than the threshold is opened by a row of transient failures
-- exactly when it brings the count to the threshold.
pub failing_opens :
    (b : CircuitBreaker) (p : Provider) (times : List ℕ)
    → p.circuit_state ≡ closed
    → p.consecutive_failures < b.failure_threshold
    → (run b p (failing times)).circuit_state
      ≡ (if leb b.failure_threshold (p.consecutive_failures + length times) then open_ else closed)
failing_opens b p times e h =
    (Failing-run b p p.consecutive_failures times
      (record { counted = refl; state = ground arith })).state

-- Once the circuit is tripped, `allow_request` refuses until the cooldown has passed and changes
-- nothing; from then on it makes the circuit HALF_OPEN, and grants if any trial is allowed at all.
pub trip-allow_request :
    (b : CircuitBreaker) (p : Provider) (now t : ℕ)
    → let q = trip b now p in
      allow_request b t q ≡ (
        if ltb t (now + b.cooldown_seconds)
        then (false, q)
        else allow_half_open b
            (record q { circuit_state = half_open; half_open_calls_in_flight = 0 }))
unfolding allow_request trip
trip-allow_request b p now t = ground arith
