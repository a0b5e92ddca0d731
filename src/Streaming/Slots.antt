-- ===== src/Streaming/Slots.antt =====
-- Every slot that `execute_stream` of app/core/scheduler.py takes it gives back.
use noxis_api_provider.Prelude.{
  ℕ, ◌+◌, String, ◌≡◌, refl, ap, ◌∙◌, Option, some, none, List, [], ◌∷◌, str_eq, if_intro, ◌==◌,
  if◌then◌else◌, arith,
}
use noxis_api_provider.Float.{Float}
use noxis_api_provider.Schemas.{ChatCompletionRequest}
use noxis_api_provider.Provider.{ProviderApiError}
use noxis_api_provider.RateLimiter.{RateLimiter, acquire, release}
use noxis_api_provider.RateLimiter
use noxis_api_provider.CircuitBreaker.{Random}
use noxis_api_provider.Router.{RoutingDecision, rank}
use noxis_api_provider.Router.Slots.{
  in_use, acquire-in_use, release-in_use, record_failure-in_use, record_429-in_use, rank-in_use,
}
use noxis_api_provider.Adapter.{Python}
use noxis_api_provider.Scheduler.{
  Shared, Scheduler, with_limiter, with_provider, on_success, allowed, eligible_decisions,
}
use noxis_api_provider.Scheduler.Slots.{allowed-limiter}
use noxis_api_provider.Streaming.{
  Round, StreamTrace, note_failure, left_round, stream_all, execute_stream,
}
use noxis_api_provider.Streaming.Rounds.{arrived, noted, slept, stream_intro}

-- Other tasks may change anything else, and hold as many slots of each provider after as before.
pub record IsBalanced {ℓ} {F : Type ℓ} (world : ℕ → Round F) : Type ℓ where
  pub stream :
      (i : ℕ) (s : Shared F) (j : String)
      → in_use ((world i).during_stream s).limiter j ≡ in_use s.limiter j
  pub sleep :
      (i delay : ℕ) (s : Shared F) (j : String)
      → in_use ((world i).during_sleep delay s).limiter j ≡ in_use s.limiter j

-- So it is where the consumer leaves.
pub left_round-IsBalanced {ℓ} :
    {F : Type ℓ} (py : Python) (k : ℕ) (streams : ℕ → Round F)
    → IsBalanced streams
    → IsBalanced (λ i. left_round py k (streams i))
unfolding left_round
left_round-IsBalanced py k streams b = record { stream = b.stream; sleep = b.sleep }

module _ {ℓ} {F : Type ℓ} where
  note_failure-in_use :
      (c : Scheduler) (now : ℕ) (name : String) (e : ProviderApiError) (s : Shared F) (j : String)
      → in_use (note_failure c now name e s).limiter j ≡ in_use s.limiter j
  unfolding note_failure
  note_failure-in_use c now name e s j =
      let failure = record_failure-in_use name j s.limiter in
      let limited =
        record_429-in_use now name j e.retry_after (RateLimiter.record_failure name s.limiter) in
      unfold with_provider in
      if_intro (λ (x : Shared F). in_use x.limiter j ≡ in_use s.limiter j) (e.status_code == 429) _
        _ (λ _. limited ∙ failure) (λ _. failure)

-- A slot more is held than in another state; giving it back restores the count.
give_back :
    (name j : String) (n : ℕ) (rl : RateLimiter)
    → in_use rl j ≡ (if str_eq name j then n + 1 else n)
    → in_use (release name rl) j ≡ n
give_back name j n rl h = ground (arith, release-in_use name j rl, h)

module _ {ℓ} {F : Type ℓ} ⦃f : Float F⦄ (py : Python) (rnd : Random) (c : Scheduler) where
  stream_all-in_use :
      (r : ChatCompletionRequest) (world : ℕ → Round F) (ds : List (RoutingDecision F))
      (attempts : ℕ) (last : Option ProviderApiError) (s : Shared F)
      → IsBalanced world
      → (j : String)
      → in_use (stream_all py rnd c r world ds attempts last s).state.limiter j ≡ in_use s.limiter j
  unfolding stream_all on_success with_limiter
  stream_all-in_use r world [] attempts last s b j = refl
  stream_all-in_use r world (d ∷ ds) attempts last s b j =
      let Ends = λ (t : StreamTrace F). in_use t.state.limiter j ≡ in_use s.limiter j in
      let s₁ = arrived py rnd c r world Ends d ds attempts last s in
      let held : in_use s₁.limiter j
          ≡ (if str_eq d.provider j then in_use s.limiter j + 1 else in_use s.limiter j) =
        b.stream attempts (with_limiter (acquire (world attempts).started d.provider) s) j
        ∙ acquire-in_use (world attempts).started d.provider j s.limiter in
      let still = λ (e : ProviderApiError).
        note_failure-in_use c (world attempts).ended d.provider e s₁ j ∙ held in
      stream_intro py rnd c r world Ends d ds attempts last s refl
        (λ chunks. give_back d.provider j (in_use s.limiter j) _ held)
        (λ chunks. give_back d.provider j (in_use s.limiter j) _ held)
        (λ chunks e. give_back d.provider j (in_use s.limiter j) _ (still e))
        (λ e.
          stream_all-in_use r world ds (attempts + 1) (some e)
            (slept py rnd c r world Ends d ds attempts last s e) b j
          ∙ give_back d.provider j (in_use s.limiter j) _
              (b.sleep attempts _ (noted py rnd c r world Ends d ds attempts last s e) j ∙ still e))

  -- However a stream ends, before or after its first chunk, the call gives back each slot that it takes,
  -- if the other tasks do so with theirs.
  pub execute_stream-in_use :
      (now : ℕ) (r : ChatCompletionRequest) (world : ℕ → Round F) (s : Shared F)
      → IsBalanced world
      → (j : String)
      → in_use (execute_stream py rnd c now r world s).state.limiter j ≡ in_use s.limiter j
  unfolding execute_stream eligible_decisions
  execute_stream-in_use now r world s b j =
      let (ranked, rl) = rank now s.registry s.latency_stats r s.limiter in
      let s₁ = record s { limiter = rl } in
      let (ds, s₂) = allowed c.breaker now ranked s₁ in
      stream_all-in_use r world ds 0 none s₂ b j
      ∙ (ap (λ x. in_use x j) (allowed-limiter c.breaker now ranked s₁)
          ∙ rank-in_use now s.registry s.latency_stats r s.limiter j)
