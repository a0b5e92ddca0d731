-- ===== src/Streaming/OneProvider.antt =====
-- A stream of app/core/scheduler.py never switches providers once it has put out a chunk.
use noxis_api_provider.Prelude.{
  ℕ, ◌+◌, String, ◌≡◌, ◌≢◌, refl, ◌⊎◌, inl, inr, Option, some, none, List, [], ◌∷◌, All, arith,
}
use noxis_api_provider.Float.{Float}
use noxis_api_provider.Json.{Json}
use noxis_api_provider.Schemas.{ChatCompletionRequest}
use noxis_api_provider.Provider.{ProviderApiError}
use noxis_api_provider.CircuitBreaker.{Random}
use noxis_api_provider.Router.{RoutingDecision}
use noxis_api_provider.Adapter.{Python}
use noxis_api_provider.Scheduler.{Shared, Scheduler, eligible_decisions}
use noxis_api_provider.Streaming.{
  Round, StreamTrace, service_unavailable, tagged, stream_all, execute_stream,
}
use noxis_api_provider.Streaming.Rounds.{slept, stream_intro}

-- No chunk came out; or all are of one provider, and the stream ended without a word on availability.
abbrev pub OneProvider {ℓ} : {F : Type ℓ} → StreamTrace F → Type 0
OneProvider t =
    (t.chunks ≡ [])
    ⊎ ((name : String) × (All (λ (x : Json × String). x.1 ≡ name) t.chunks
          × ((last : Option ProviderApiError) → t.verdict ≢ service_unavailable last)))

All-tagged :
    (name : String) (js : List Json) → All (λ (x : Json × String). x.1 ≡ name) (tagged name js)
All-tagged name [] = tt
All-tagged name (j ∷ js) = (refl, All-tagged name js)

module _ {ℓ} {F : Type ℓ} ⦃f : Float F⦄ (py : Python) (rnd : Random) (c : Scheduler) where
  stream_all-OneProvider :
      (r : ChatCompletionRequest) (world : ℕ → Round F) (ds : List (RoutingDecision F))
      (attempts : ℕ) (last : Option ProviderApiError) (s : Shared F)
      → OneProvider (stream_all py rnd c r world ds attempts last s)
  unfolding stream_all
  stream_all-OneProvider r world [] attempts last s = inl refl
  stream_all-OneProvider r world (d ∷ ds) attempts last s =
      stream_intro py rnd c r world OneProvider d ds attempts last s (inl refl)
        (λ chunks. inr (d.provider, (All-tagged d.provider chunks, λ l q. ground arith)))
        (λ chunks. inr (d.provider, (All-tagged d.provider chunks, λ l q. ground arith)))
        (λ chunks e. inr (d.provider, (All-tagged d.provider chunks, λ l q. ground arith)))
        (λ e.
          stream_all-OneProvider r world ds (attempts + 1) (some e)
            (slept py rnd c r world OneProvider d ds attempts last s e))

  -- Whatever the upstreams send and the other tasks do, either the client gets no chunk, or all chunks
  -- come from one provider, and the stream does not then end in ServiceUnavailableError.
  pub execute_stream-OneProvider :
      (now : ℕ) (r : ChatCompletionRequest) (world : ℕ → Round F) (s : Shared F)
      → OneProvider (execute_stream py rnd c now r world s)
  unfolding execute_stream
  execute_stream-OneProvider now r world s =
      let (ds, s') = eligible_decisions c.breaker now r s in
      stream_all-OneProvider r world ds 0 none s'
