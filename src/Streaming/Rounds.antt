-- ===== src/Streaming/Rounds.antt =====
-- The rounds of the loop in `execute_stream`, app/core/scheduler.py: what holds of each way a round can
-- end holds of the loop.
use noxis_api_provider.Prelude.{
  ℕ, ◌+◌, not, ◌||◌, Option, some, List, [], ◌∷◌, ◌++◌, leb, if_intro, if◌then◌else◌,
}
use noxis_api_provider.Float.{Float}
use noxis_api_provider.Json.{Json}
use noxis_api_provider.Schemas.{ChatCompletionRequest}
use noxis_api_provider.Provider.{ProviderApiError, is_empty}
use noxis_api_provider.RateLimiter.{acquire, release}
use noxis_api_provider.CircuitBreaker.{Random, backoff_delay}
use noxis_api_provider.Router.{RoutingDecision}
use noxis_api_provider.Adapter.{Python, Outcome, returned, failed, crashed}
use noxis_api_provider.Scheduler.{Shared, Scheduler, with_limiter, on_success}
use noxis_api_provider.Streaming.{
  Round, StreamTrace, completed, raised, service_unavailable, propagated, note_failure, tagged,
  stream_from, stream_all,
}

module _ {ℓ} {F : Type ℓ} ⦃f : Float F⦄ (py : Python) (rnd : Random) (c : Scheduler)
    (r : ChatCompletionRequest) (world : ℕ → Round F) (P : StreamTrace F → Type 0)
    (d : RoutingDecision F) (ds : List (RoutingDecision F)) (attempts : ℕ)
    (last : Option ProviderApiError) (s : Shared F) where
  -- The shared state when the stream is over.
  abbrev pub arrived : Shared F
  arrived =
      (world attempts).during_stream (with_limiter (acquire (world attempts).started d.provider) s)

  abbrev pub noted : ProviderApiError → Shared F
  noted e = note_failure c (world attempts).ended d.provider e arrived

  abbrev pub slept : ProviderApiError → Shared F
  slept e = with_limiter (release d.provider) (
      (world attempts).during_sleep
        (backoff_delay rnd (attempts + 1) c.backoff_base c.backoff_cap e.retry_after) (noted e))

  pub stream_intro :
      P (record { chunks = []; verdict = service_unavailable last; state = s })
      → ((chunks : List Json)
          → P (record {
            chunks = tagged d.provider chunks;
            verdict = completed;
            state =
                with_limiter
                  (release d.provider)
                  (on_success d.provider (world attempts).elapsed_ms arrived);
          }))
      → ((chunks : List Json)
          → P (record {
            chunks = tagged d.provider chunks;
            verdict = propagated;
            state = with_limiter (release d.provider) arrived;
          }))
      → ((chunks : List Json) (e : ProviderApiError)
          → P (record {
            chunks = tagged d.provider chunks;
            verdict = raised e;
            state = with_limiter (release d.provider) (noted e);
          }))
      → ((e : ProviderApiError)
          → P (stream_all py rnd c r world ds (attempts + 1) (some e) (slept e)))
      → P (stream_all py rnd c r world (d ∷ ds) attempts last s)
  unfolding stream_all
  stream_intro stop good crash fail retry =
      if_intro P (leb c.max_retries attempts) _ _ (λ _. stop)
        (λ _. by_outcome (
          stream_from py rnd c r (world attempts) d
            (with_limiter (acquire (world attempts).started d.provider) s)))
    where
      rest : ProviderApiError → StreamTrace F
      rest e = stream_all py rnd c r world ds (attempts + 1) (some e) (slept e)

      by_outcome :
          (x : List Json × Outcome Unit)
          → P (elim (x.1) [
            | returned ok ↦ record {
              chunks = tagged d.provider x.0;
              verdict = completed;
              state =
                  with_limiter
                    (release d.provider)
                    (on_success d.provider (world attempts).elapsed_ms arrived);
            }
            | crashed ↦ record {
              chunks = tagged d.provider x.0;
              verdict = propagated;
              state = with_limiter (release d.provider) arrived;
            }
            | failed e ↦
                if not (is_empty x.0) || not e.retryable
                then record {
                  chunks = tagged d.provider x.0;
                  verdict = raised e;
                  state = with_limiter (release d.provider) (noted e);
                }
                else record (rest e) { chunks = tagged d.provider x.0 ++ (rest e).chunks }
          ])
      by_outcome (chunks, returned ok) = good chunks
      by_outcome (chunks, crashed) = crash chunks
      by_outcome ([], failed e) = if_intro P (not e.retryable) _ _ (λ _. fail [] e) (λ _. retry e)
      by_outcome (j ∷ js, failed e) = fail (j ∷ js) e
