-- ===== src/CircuitBreaker/Transitions.antt =====
-- The state machine of app/core/failover.py as a relation, and the calls as its steps.
use noxis_api_provider.Prelude.{
  ℕ, ◌+◌, ◌≤◌, ◌<◌, ◌≡◌, ◌≢◌, ◌⊎◌, min, refl, ap, ◌∙◌, if◌then◌else◌, if_intro, Bool, true, false,
  List, [], ◌∷◌, inl, inr, leb, ltb, Bool-cases, arith,
}
use noxis_api_provider.Provider.{Provider, CircuitState, closed, open_, half_open}
use noxis_api_provider.CircuitBreaker.{
  CircuitBreaker, allow_half_open, trip, allow_in, allow_request, record_success, record_failure,
  count_failure,
}

-- A call on one provider's breaker, with the time that it reads.
pub data Call : Type 0 where
  allows : ℕ → Call
  succeeds : Call
  fails : ℕ → Bool → Call

unfoldable pub step : CircuitBreaker → Provider → Call → Provider
step b p (allows now) = (allow_request b now p).1
step b p succeeds = record_success p
step b p (fails now transient) = record_failure b now transient p

unfoldable pub run : CircuitBreaker → Provider → List Call → Provider
run b p [] = p
run b p (c ∷ cs) = run b (step b p c) cs

-- The state machine that the module's comment draws, with its conditions: which call takes a circuit in the
-- state p to q. A call of allow_request also answers.
pub data Moves (b : CircuitBreaker) (p : Provider) : Call → Provider → Type 0 where
  serves :
      (now : ℕ)
      → p.circuit_state ≡ closed
      → (allow_request b now p).0 ≡ true
      → Moves b p (allows now) p
  waits :
      (now : ℕ)
      → p.circuit_state ≡ open_
      → now < p.cooldown_until
      → (allow_request b now p).0 ≡ false
      → Moves b p (allows now) p
  probes :
      (now : ℕ) (q : Provider)
      → p.circuit_state ≡ open_
      → p.cooldown_until ≤ now
      → (allow_request b now p).0 ≡ ltb 0 b.half_open_max_calls
      → q.circuit_state ≡ half_open
      → q.half_open_calls_in_flight ≡ min 1 b.half_open_max_calls
      → Moves b p (allows now) q
  tries :
      (now : ℕ) (q : Provider)
      → p.circuit_state ≡ half_open
      → p.half_open_calls_in_flight < b.half_open_max_calls
      → (allow_request b now p).0 ≡ true
      → q.circuit_state ≡ half_open
      → q.half_open_calls_in_flight ≡ p.half_open_calls_in_flight + 1
      → Moves b p (allows now) q
  refuses :
      (now : ℕ)
      → p.circuit_state ≡ half_open
      → b.half_open_max_calls ≤ p.half_open_calls_in_flight
      → (allow_request b now p).0 ≡ false
      → Moves b p (allows now) p
  closes :
      (q : Provider)
      → q.circuit_state ≡ closed
      → q.consecutive_failures ≡ 0
      → q.half_open_calls_in_flight ≡ 0
      → Moves b p succeeds q
  ignores : (now : ℕ) → Moves b p (fails now false) p
  counts :
      (now : ℕ) (q : Provider)
      → p.circuit_state ≢ half_open
      → p.consecutive_failures + 1 < b.failure_threshold
      → q ≡ record p { consecutive_failures = p.consecutive_failures + 1 }
      → Moves b p (fails now true) q
  trips :
      (now : ℕ) (q : Provider)
      → (p.circuit_state ≡ half_open) ⊎ (b.failure_threshold ≤ p.consecutive_failures + 1)
      → q.circuit_state ≡ open_
      → q.cooldown_until ≡ now + b.cooldown_seconds
      → q.consecutive_failures ≡ p.consecutive_failures + 1
      → Moves b p (fails now true) q

allow_request-state :
    (b : CircuitBreaker) (s : CircuitState) (now : ℕ) (p : Provider)
    → p.circuit_state ≡ s
    → allow_request b now p ≡ allow_in s b now p
unfolding allow_request
allow_request-state b s now p e = ap (λ t. allow_in t b now p) e

-- The answer and the provider as they are left, together.
allow-Moves :
    (b : CircuitBreaker) (s : CircuitState) (now : ℕ) (p : Provider)
    → p.circuit_state ≡ s
    → Moves b p (allows now) (allow_in s b now p).1
unfolding allow_in allow_half_open
allow-Moves b closed now p e = serves now e (ap (λ r. r.0) (allow_request-state b closed now p e))
allow-Moves b open_ now p e =
    let same = ap (λ r. r.0) (allow_request-state b open_ now p e) in
    elim (Bool-cases (leb p.cooldown_until now)) [
      | inl over ↦ elim (Bool-cases (ltb 0 b.half_open_max_calls)) [
        | inl room ↦
            rw (over, room, allow_in, allow_half_open)
              (probes now _ e (ground (arith, over))
                (same ∙ rw (over, room, allow_in, allow_half_open) refl) refl
                (ground (arith, room)))
        | inr none_ ↦
            rw (over, none_, allow_in, allow_half_open)
              (probes now _ e (ground (arith, over))
                (same ∙ rw (over, none_, allow_in, allow_half_open) refl) refl
                (ground (arith, none_)))
      ]
      | inr early ↦
          rw (early, allow_in)
            (waits now e (ground (arith, early)) (same ∙ rw (early, allow_in) refl))
    ]
allow-Moves b half_open now p e =
    let same = ap (λ r. r.0) (allow_request-state b half_open now p e) in
    elim (Bool-cases (ltb p.half_open_calls_in_flight b.half_open_max_calls)) [
      | inl room ↦
          rw (room, allow_half_open)
            (tries now _ e (ground (arith, room)) (same ∙ rw (room, allow_half_open) refl) e refl)
      | inr full ↦
          rw (full, allow_half_open)
            (refuses now e (ground (arith, full)) (same ∙ rw (full, allow_half_open) refl))
    ]

threshold-Moves :
    (b : CircuitBreaker) (now : ℕ) (p : Provider)
    → p.circuit_state ≢ half_open
    → let q = record p { consecutive_failures = p.consecutive_failures + 1 } in
      Moves b p
        (fails now true)
        (if leb b.failure_threshold q.consecutive_failures then trip b now q else q)
unfolding trip
threshold-Moves b now p not_half =
    if_intro (Moves b p (fails now true)) (leb b.failure_threshold (p.consecutive_failures + 1)) _ _
      (λ many. trips now _ (inr (ground (arith, many))) refl refl refl)
      (λ few. counts now _ not_half (ground (arith, few)) refl)

failure-Moves :
    (b : CircuitBreaker) (s : CircuitState) (now : ℕ) (p : Provider)
    → p.circuit_state ≡ s
    → Moves b p
        (fails now true)
        (count_failure s b now (record p { consecutive_failures = p.consecutive_failures + 1 }))
unfolding count_failure trip
failure-Moves b closed now p e = threshold-Moves b now p (ground (arith, e))
failure-Moves b open_ now p e = threshold-Moves b now p (ground (arith, e))
failure-Moves b half_open now p e = trips now _ (inl e) refl refl refl

-- Every call of the breaker, with the time that it reads, is one of the drawn moves, under its condition.
-- A CLOSED circuit lets every request through. An OPEN one refuses before its cooldown is over, and then
-- goes to HALF_OPEN. A HALF_OPEN one lets requests through up to its bound. A success closes the circuit; a
-- failure that is not transient changes nothing; and a transient one opens it, for the cooldown from then
-- on, exactly where it is HALF_OPEN or the failures reach the threshold, and else is counted.
pub step-Moves : (b : CircuitBreaker) (p : Provider) (c : Call) → Moves b p c (step b p c)
unfolding step allow_request record_success
step-Moves b p (allows now) = allow-Moves b p.circuit_state now p refl
step-Moves b p succeeds = closes _ refl refl refl
step-Moves b p (fails now true) =
    unfold record_failure in failure-Moves b p.circuit_state now p refl
step-Moves b p (fails now false) = unfold record_failure in ignores now
