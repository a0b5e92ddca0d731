-- ===== src/Scheduler/Attempt.antt =====
-- The rounds of the loop in `execute`, app/core/scheduler.py: what holds of each way a round can end
-- holds of the loop.
use noxis_api_provider.Prelude.{
  ℕ, ◌+◌, ◌<◌, ◌≡◌, refl, Option, some, List, [], ◌∷◌, ◌++◌, leb, if_intro, arith,
}
use noxis_api_provider.Float.{Float}
use noxis_api_provider.Schemas.{ChatCompletionRequest}
use noxis_api_provider.Provider.{ProviderResult, ProviderApiError}
use noxis_api_provider.RateLimiter.{acquire, release}
use noxis_api_provider.CircuitBreaker.{Random}
use noxis_api_provider.Router.{RoutingDecision}
use noxis_api_provider.Adapter.{Python, HttpRequest, Outcome, returned, failed, crashed}
use noxis_api_provider.Scheduler.{
  Shared, Scheduler, Round, served, service_unavailable, propagated, Trace, with_limiter, exchange,
  after_failure, after_success, awaited, attempt_all,
}

module _ {ℓ κ} {F : Type ℓ} ⦃f : Float F⦄ (py : Python) (rnd : Random) (c : Scheduler)
    (r : ChatCompletionRequest) (world : ℕ → Round F) (P : Trace F → Type κ) (d : RoutingDecision F)
    (ds : List (RoutingDecision F)) (attempts : ℕ) (last : Option ProviderApiError)
    (s : Shared F) where
  -- What the round's request and answer are.
  abbrev pub exchanged : List HttpRequest × Outcome ProviderResult
  exchanged =
      exchange py rnd c r (world attempts) d
        (with_limiter (acquire (world attempts).started d.provider) s)

  abbrev arrived : Shared F
  arrived = awaited py rnd c (world attempts) d s

  pub attempt_intro :
      P (record { verdict = service_unavailable last; state = s; sent = [] })
      → ((sent : List HttpRequest) (result : ProviderResult)
          → exchanged ≡ (sent, returned result)
          → attempts < c.max_retries
          → P (record {
            verdict = served result d.provider;
            state = after_success py rnd c (world attempts) d arrived;
            sent = sent;
          }))
      → ((sent : List HttpRequest)
          → exchanged ≡ (sent, crashed)
          → attempts < c.max_retries
          → P (record {
            verdict = propagated;
            state = with_limiter (release d.provider) arrived;
            sent = sent;
          }))
      → ((sent : List HttpRequest) (e : ProviderApiError)
          → exchanged ≡ (sent, failed e)
          → attempts < c.max_retries
          → let rest =
              attempt_all py rnd c r world ds
                (attempts + 1)
                (some e)
                (after_failure py rnd c (world attempts) (attempts + 1) d e arrived) in
            P (record rest { sent = sent ++ rest.sent }))
      → P (attempt_all py rnd c r world (d ∷ ds) attempts last s)
  unfolding attempt_all
  attempt_intro stop good crash fail =
      if_intro P (leb c.max_retries attempts) _ _ (λ _. stop)
        (λ more. by_outcome exchanged refl (ground arith))
    where
      rest : ProviderApiError → Trace F
      rest e =
          attempt_all py rnd c r world ds (attempts + 1) (some e)
            (after_failure py rnd c (world attempts) (attempts + 1) d e arrived)

      by_outcome :
          (x : List HttpRequest × Outcome ProviderResult)
          → exchanged ≡ x
          → attempts < c.max_retries
          → P (elim (x.1) [
            | returned result ↦ record {
              verdict = served result d.provider;
              state = after_success py rnd c (world attempts) d arrived;
              sent = x.0;
            }
            | crashed ↦ record {
              verdict = propagated;
              state = with_limiter (release d.provider) arrived;
              sent = x.0;
            }
            | failed e ↦ record (rest e) { sent = x.0 ++ (rest e).sent }
          ])
      by_outcome (sent, returned result) q h = good sent result q h
      by_outcome (sent, crashed) q h = crash sent q h
      by_outcome (sent, failed e) q h = fail sent e q h
