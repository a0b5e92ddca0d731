-- ===== src/CircuitBreaker/Trials.antt =====
-- The trial requests of a HALF_OPEN circuit of app/core/failover.py.
use native.Mathlib.Nat.{le_trans}
use noxis_api_provider.Prelude.{
  ℕ, suc, ◌+◌, ◌-◌, ◌≤◌, ◌≡◌, refl, ap, ◌∙◌, Bool, true, false, List, [], ◌∷◌, ◌≢◌, if◌then◌else◌,
  arith,
}
use noxis_api_provider.Provider.{Provider, CircuitState, closed, open_, half_open}
use noxis_api_provider.CircuitBreaker.{CircuitBreaker, allow_request, allow_in, record_failure}
use noxis_api_provider.CircuitBreaker.Transitions.{Call, allows, succeeds, fails, step, run}

-- How many of the calls are requests that the breaker lets through.
unfoldable pub granted : CircuitBreaker → Provider → List Call → ℕ
unfolding step
granted b p [] = 0
granted b p (allows now ∷ cs) =
    let rest = granted b (step b p (allows now)) cs in
    if (allow_request b now p).0 then suc rest else rest
granted b p (succeeds ∷ cs) = granted b (step b p succeeds) cs
granted b p (fails now transient ∷ cs) = granted b (step b p (fails now transient)) cs

-- Requests, and failures that are not transient.
abbrev pub Unresolved : List Call → Type 0
Unresolved [] = Unit
Unresolved (allows now ∷ cs) = Unresolved cs
Unresolved (succeeds ∷ cs) = ⊥
Unresolved (fails now transient ∷ cs) = (transient ≡ false) × Unresolved cs

-- What is left of the trials of a circuit that is not closed.
abbrev trials_left : CircuitBreaker → Provider → CircuitState → ℕ
trials_left b p closed = 0
trials_left b p open_ = b.half_open_max_calls
trials_left b p half_open = b.half_open_max_calls - p.half_open_calls_in_flight

allow-trials :
    (b : CircuitBreaker) (p : Provider) (now : ℕ) (s : CircuitState)
    → p.circuit_state ≡ s
    → s ≢ closed
    → let (yes_, q) = allow_in s b now p in
      (q.circuit_state ≢ closed)
      × ((if yes_ then 1 else 0) + trials_left b q q.circuit_state ≤ trials_left b p s)
unfolding allow_in
allow-trials b p now closed e h = absurd (h refl)
allow-trials b p now open_ e h = ground arith
allow-trials b p now half_open e h = ground arith

trials_left-le :
    (b : CircuitBreaker) (p : Provider) (s : CircuitState)
    → trials_left b p s ≤ b.half_open_max_calls
trials_left-le b p closed = omega arith
trials_left-le b p open_ = omega arith
trials_left-le b p half_open = omega arith

allow_exhausted :
    (b : CircuitBreaker) (p : Provider) (now : ℕ)
    → p.circuit_state ≡ half_open
    → b.half_open_max_calls ≤ p.half_open_calls_in_flight
    → allow_request b now p ≡ (false, p)
unfolding allow_request
allow_exhausted b p now e h = ground arith

granted-le-trials :
    (b : CircuitBreaker) (p : Provider) (cs : List Call)
    → p.circuit_state ≢ closed
    → Unresolved cs
    → granted b p cs ≤ trials_left b p p.circuit_state
unfolding granted step allow_request record_failure
granted-le-trials b p [] h u = omega arith
granted-le-trials b p (allows now ∷ cs) h u =
    let (still, less) = allow-trials b p now p.circuit_state refl h in
    ground (arith, less, granted-le-trials b (allow_in p.circuit_state b now p).1 cs still u)
granted-le-trials b p (succeeds ∷ cs) h u = absurd u
granted-le-trials b p (fails now true ∷ cs) h u = cc
granted-le-trials b p (fails now false ∷ cs) h u = granted-le-trials b p cs h u.1

-- While the circuit is OPEN or HALF_OPEN and no call has succeeded or failed transiently, no more
-- requests are let through than HALF_OPEN allows, however many are asked for, and whenever.
pub granted-le :
    (b : CircuitBreaker) (p : Provider) (cs : List Call)
    → p.circuit_state ≢ closed
    → Unresolved cs
    → granted b p cs ≤ b.half_open_max_calls
granted-le b p cs h u = le_trans (granted-le-trials b p cs h u) (trials_left-le b p p.circuit_state)

-- A HALF_OPEN circuit with all trials in use stays as it is, and refuses every request at every time,
-- until some call succeeds or fails transiently: there is no timeout on a trial.
pub exhausted_forever :
    (b : CircuitBreaker) (p : Provider) (cs : List Call)
    → p.circuit_state ≡ half_open
    → b.half_open_max_calls ≤ p.half_open_calls_in_flight
    → Unresolved cs
    → (run b p cs ≡ p) × (granted b p cs ≡ 0)
unfolding run granted step record_failure
exhausted_forever b p [] e h u = (refl, refl)
exhausted_forever b p (allows now ∷ cs) e h u =
    let same : allow_request b now p ≡ (false, p) = allow_exhausted b p now e h in
    let (still, nothing) = exhausted_forever b p cs e h u in
    (
      ap (λ (r : Bool × Provider). run b r.1 cs) same ∙ still,
      ground (
        arith,
        ap (λ (r : Bool × Provider). granted b r.1 cs) same,
        ap (λ (r : Bool × Provider). r.0) same,
        nothing,
      ),
    )
exhausted_forever b p (succeeds ∷ cs) e h u = absurd u
exhausted_forever b p (fails now true ∷ cs) e h u = cc
exhausted_forever b p (fails now false ∷ cs) e h u = exhausted_forever b p cs e h u.1
