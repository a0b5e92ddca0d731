-- ===== src/Scheduler.antt =====
-- app/core/scheduler.py: retries and failover of one chat completion. The upstreams, the clock, the
-- random source and the other tasks of the event loop are parameters.
pub mod Attempt
pub mod Calls
pub mod Known
pub mod Failover
pub mod Slots
pub mod Tests
use noxis_api_provider.Prelude.{
  ℕ, ◌+◌, String, Option, none, some, List, [], ◌∷◌, ◌++◌, leb, ◌==◌, if◌then◌else◌,
}
use noxis_api_provider.Float.{Float}
use noxis_api_provider.Dict.{Dict}
use noxis_api_provider.Schemas.{ChatCompletionRequest}
use noxis_api_provider.Provider.{
  Provider, ProviderResult, ProviderApiError, unavailable, find, update,
}
use noxis_api_provider.ProviderRegistry.{ProviderRegistry}
use noxis_api_provider.RateLimiter.{RateLimiter, acquire, release, record_429}
use noxis_api_provider.RateLimiter
use noxis_api_provider.CircuitBreaker.{
  CircuitBreaker, Random, allow_request, record_success, record_failure, backoff_delay,
}
use noxis_api_provider.Router.{RoutingDecision, rank, observe_latency}
use noxis_api_provider.Adapter.{
  Python, HttpRequest, HttpOutcome, Outcome, returned, failed, crashed, post_request,
  chat_completion,
}

-- What the scheduler, the router and the other tasks share.
pub record Shared {ℓ} (F : Type ℓ) : Type ℓ where
  pub registry : ProviderRegistry
  pub limiter : RateLimiter
  pub latency_stats : Dict F

pub record Scheduler : Type 0 where
  pub breaker : CircuitBreaker
  pub max_retries : ℕ
  pub backoff_base : ℕ
  pub backoff_cap : ℕ

-- One round of the loop as the world has it: the times read, the answer to the request that is sent,
-- and what other tasks do to the shared state while this one awaits the answer, and while it sleeps.
pub record Round {ℓ} (F : Type ℓ) : Type ℓ where
  pub started : ℕ
  pub answer : HttpRequest → HttpOutcome
  pub latency : ℕ
  pub elapsed_ms : F
  pub ended : ℕ
  pub during_call : Shared F → Shared F
  pub during_sleep : ℕ → Shared F → Shared F

-- The end of a call: a result and its provider, ServiceUnavailableError, with the last error where one
-- was met, or an exception of another kind that passes through.
pub data Verdict : Type 0 where
  served : ProviderResult → String → Verdict
  service_unavailable : Option ProviderApiError → Verdict
  propagated : Verdict

module _ {ℓ} {F : Type ℓ} where
  -- A write to a provider object.
  unfoldable pub with_provider : String → (Provider → Provider) → Shared F → Shared F
  unfolding update
  with_provider name g s = record s {
    registry = record (s.registry) { providers = update name g s.registry.providers };
  }

  unfoldable pub with_limiter : (RateLimiter → RateLimiter) → Shared F → Shared F
  with_limiter g s = record s { limiter = g s.limiter }

  -- `[d for d in ... if self.breaker.allow_request(d.provider)]`, with the state that each test leaves
  unfoldable pub allowed :
      CircuitBreaker → ℕ → List (RoutingDecision F) → Shared F → List (RoutingDecision F) × Shared F
  unfolding with_provider
  allowed b now [] s = ([], s)
  allowed b now (d ∷ ds) s = elim (find d.provider s.registry.providers) [
    | none ↦ allowed b now ds s
    | some p ↦
        let (rest, s') =
          allowed b now ds (with_provider d.provider (λ o. (allow_request b now o).1) s) in
        (if (allow_request b now p).0 then d ∷ rest else rest, s')
  ]

  -- The handler of a ProviderAPIError, up to the sleep.
  unfoldable pub on_failure : Scheduler → ℕ → String → ProviderApiError → Shared F → Shared F
  unfolding with_limiter with_provider
  on_failure c now name e s =
      let s₁ = with_limiter (RateLimiter.record_failure name) s in
      let s₂ =
        if e.status_code == 429 then with_limiter (record_429 now name e.retry_after) s₁ else s₁ in
      let s₃ = with_provider name (record_failure c.breaker now e.retryable) s₂ in
      if e.retryable then s₃ else with_provider name (λ p. record p { health = unavailable }) s₃

module _ {ℓ} {F : Type ℓ} ⦃f : Float F⦄ where
  unfoldable pub eligible_decisions :
      CircuitBreaker → ℕ → ChatCompletionRequest → Shared F → List (RoutingDecision F) × Shared F
  unfolding allowed
  eligible_decisions b now r s =
      let (ranked, rl) = rank now s.registry s.latency_stats r s.limiter in
      allowed b now ranked (record s { limiter = rl })

  -- A success is recorded, and its latency observed.
  unfoldable pub on_success : String → F → Shared F → Shared F
  unfolding with_provider
  on_success name elapsed_ms s =
      let s' = with_provider name record_success s in
      record s' { latency_stats = observe_latency name elapsed_ms s'.latency_stats }

-- What a call leaves: its end, the shared state, and the requests that went out, in order.
pub record Trace {ℓ} (F : Type ℓ) : Type ℓ where
  pub verdict : Verdict
  pub state : Shared F
  pub sent : List HttpRequest

module _ {ℓ} {F : Type ℓ} ⦃f : Float F⦄ (py : Python) (rnd : Random) (c : Scheduler) where
  -- The request that goes out, for the concrete model, and what the adapter makes of the answer.
  unfoldable pub exchange :
      ChatCompletionRequest
      → Round F
      → RoutingDecision F
      → Shared F
      → List HttpRequest × Outcome ProviderResult
  exchange r round d s = elim (find d.provider s.registry.providers) [
    | none ↦ ([], crashed)
    | some p ↦
        let request = post_request p (record r { model = d.model }) in
        (request ∷ [], chat_completion py p.name round.latency (round.answer request))
  ]

  -- The state with which the loop goes on after a failure. The slot is given back after the sleep.
  unfoldable pub after_failure :
      Round F → ℕ → RoutingDecision F → ProviderApiError → Shared F → Shared F
  unfolding on_failure with_limiter
  after_failure round attempts d e s =
      let s₁ = on_failure c round.ended d.provider e s in
      let s₂ =
        if e.retryable
        then round.during_sleep
            (backoff_delay rnd attempts c.backoff_base c.backoff_cap e.retry_after) s₁
        else s₁ in
      with_limiter (release d.provider) s₂

  unfoldable pub after_success : Round F → RoutingDecision F → Shared F → Shared F
  unfolding on_success with_limiter
  after_success round d s =
      with_limiter (release d.provider) (on_success d.provider round.elapsed_ms s)

  -- The shared state when the answer arrives.
  unfoldable pub awaited : Round F → RoutingDecision F → Shared F → Shared F
  unfolding with_limiter
  awaited round d s = round.during_call (with_limiter (acquire round.started d.provider) s)

  -- The loop over the decisions; round `attempts` of the world is the one that the loop has reached.
  unfoldable pub attempt_all :
      ChatCompletionRequest
      → (ℕ → Round F)
      → List (RoutingDecision F)
      → ℕ
      → Option ProviderApiError
      → Shared F
      → Trace F
  attempt_all r world [] attempts last s = record {
    verdict = service_unavailable last;
    state = s;
    sent = [];
  }
  attempt_all r world (d ∷ ds) attempts last s =
      let round = world attempts in
      let (sent, outcome) =
        exchange r round d (with_limiter (acquire round.started d.provider) s) in
      let s' = awaited round d s in
      let tried : Trace F = elim outcome [
        | returned result ↦ record {
          verdict = served result d.provider;
          state = after_success round d s';
          sent = sent;
        }
        | crashed ↦ record {
          verdict = propagated;
          state = with_limiter (release d.provider) s';
          sent = sent;
        }
        | failed e ↦
            let rest =
              attempt_all r world ds (attempts + 1) (some e)
                (after_failure round (attempts + 1) d e s') in
            record rest { sent = sent ++ rest.sent }
      ] in
      if leb c.max_retries attempts
      then record { verdict = service_unavailable last; state = s; sent = [] }
      else tried

  -- Scheduler.execute, called at a time. With no decision the loop ends at once, as the early raise does.
  unfoldable pub execute : ℕ → ChatCompletionRequest → (ℕ → Round F) → Shared F → Trace F
  execute now r world s =
      let (decisions, s') = eligible_decisions c.breaker now r s in
      attempt_all r world decisions 0 none s'
