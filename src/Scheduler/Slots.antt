-- ===== src/Scheduler/Slots.antt =====
-- Every slot that `execute` of app/core/scheduler.py takes it gives back.
use noxis_api_provider.Prelude.{
  ℕ, ◌+◌, String, ◌≡◌, refl, ap, ◌∙◌, Option, none, some, List, [], ◌∷◌, str_eq, if_intro,
  Bool-cases, Option-cases, inl, inr, ◌==◌, if◌then◌else◌, arith,
}
use noxis_api_provider.Float.{Float}
use noxis_api_provider.Schemas.{ChatCompletionRequest}
use noxis_api_provider.Provider.{ProviderApiError, find}
use noxis_api_provider.RateLimiter.{RateLimiter, acquire, release, record_429}
use noxis_api_provider.RateLimiter
use noxis_api_provider.CircuitBreaker.{CircuitBreaker, Random, allow_request, backoff_delay}
use noxis_api_provider.Router.{RoutingDecision, rank}
use noxis_api_provider.Adapter.{Python}
use noxis_api_provider.Scheduler.{
  Shared, Scheduler, Round, with_limiter, with_provider, allowed, on_failure, on_success,
  eligible_decisions, after_failure, after_success, awaited, attempt_all, execute,
}
use noxis_api_provider.Router.Slots.{
  in_use, acquire-in_use, release-in_use, record_failure-in_use, record_429-in_use, rank-in_use,
}
use noxis_api_provider.Scheduler.Attempt.{attempt_intro}

pub allowed-limiter {ℓ} :
    {F : Type ℓ} (b : CircuitBreaker) (now : ℕ) (ds : List (RoutingDecision F)) (s : Shared F)
    → (allowed b now ds s).1.limiter ≡ s.limiter
unfolding allowed
allowed-limiter b now [] s = refl
allowed-limiter b now (d ∷ ds) s = elim (Option-cases (find d.provider s.registry.providers)) [
  | inl e ↦ rw (e, allowed) (allowed-limiter b now ds s)
  | inr (p, e) ↦
      rw (e, allowed)
        (allowed-limiter b now ds (with_provider d.provider (λ o. (allow_request b now o).1) s))
]

-- Other tasks may change anything else, and hold as many slots of each provider after as before.
pub record IsBalanced {ℓ} {F : Type ℓ} (world : ℕ → Round F) : Type ℓ where
  pub call :
      (i : ℕ) (s : Shared F) (j : String)
      → in_use ((world i).during_call s).limiter j ≡ in_use s.limiter j
  pub sleep :
      (i delay : ℕ) (s : Shared F) (j : String)
      → in_use ((world i).during_sleep delay s).limiter j ≡ in_use s.limiter j

module _ {ℓ} {F : Type ℓ} ⦃f : Float F⦄ (py : Python) (rnd : Random) (c : Scheduler) where
  -- One slot of `name` more than in another state.
  abbrev Holds : String → RateLimiter → Shared F → Type 0
  Holds name rl s =
      (j : String) → in_use s.limiter j ≡ (if str_eq name j then in_use rl j + 1 else in_use rl j)

  give_back :
      (name : String) (rl : RateLimiter) (s : Shared F)
      → Holds name rl s
      → (j : String) → in_use (release name s.limiter) j ≡ in_use rl j
  give_back name rl s h j = ground (arith, release-in_use name j s.limiter, h j)

  on_failure-in_use :
      (now : ℕ) (name : String) (e : ProviderApiError) (s : Shared F) (j : String)
      → in_use (on_failure c now name e s).limiter j ≡ in_use s.limiter j
  unfolding on_failure
  on_failure-in_use now name e s j =
      let failure = record_failure-in_use name j s.limiter in
      let limited =
        record_429-in_use now name j e.retry_after (RateLimiter.record_failure name s.limiter) in
      elim (Bool-cases e.retryable) [
        | inl t ↦ rw (t, on_failure) (by_status e.status_code failure limited)
        | inr t ↦ rw (t, on_failure) (by_status e.status_code failure limited)
      ]
    where
      by_status :
          (status : ℕ)
          → in_use (RateLimiter.record_failure name s.limiter) j ≡ in_use s.limiter j
          → in_use (record_429 now name e.retry_after (RateLimiter.record_failure name s.limiter)) j
            ≡ in_use (RateLimiter.record_failure name s.limiter) j
          → in_use
              (if status == 429
                then with_limiter
                    (record_429 now name e.retry_after)
                    (with_limiter (RateLimiter.record_failure name) s)
                else with_limiter (RateLimiter.record_failure name) s).limiter
              j
            ≡ in_use s.limiter j
      by_status status a b =
          if_intro (λ (x : Shared F). in_use x.limiter j ≡ in_use s.limiter j) (status == 429) _ _
            (λ _. b ∙ a) (λ _. a)

  awaited-Holds :
      (world : ℕ → Round F) (i : ℕ) (d : RoutingDecision F) (s : Shared F)
      → IsBalanced world
      → Holds d.provider s.limiter (awaited py rnd c (world i) d s)
  unfolding awaited
  awaited-Holds world i d s b j =
      b.call i (with_limiter (acquire (world i).started d.provider) s) j
      ∙ acquire-in_use (world i).started d.provider j s.limiter

  after_failure-in_use :
      (world : ℕ → Round F) (i n : ℕ) (d : RoutingDecision F) (e : ProviderApiError)
      (rl : RateLimiter) (s : Shared F)
      → IsBalanced world
      → Holds d.provider rl s
      → (j : String) → in_use (after_failure py rnd c (world i) n d e s).limiter j ≡ in_use rl j
  unfolding after_failure
  after_failure-in_use world i n d e rl s b h =
      let s₁ = on_failure c (world i).ended d.provider e s in
      let delay = backoff_delay rnd n c.backoff_base c.backoff_cap e.retry_after in
      let h₁ : Holds d.provider rl s₁ =
        λ j. on_failure-in_use (world i).ended d.provider e s j ∙ h j in
      give_back d.provider rl (if e.retryable then (world i).during_sleep delay s₁ else s₁) (
        if_intro (Holds d.provider rl) e.retryable ((world i).during_sleep delay s₁) s₁
          (λ _ j. b.sleep i delay s₁ j ∙ h₁ j) (λ _. h₁))

  attempt_all-in_use :
      (r : ChatCompletionRequest) (world : ℕ → Round F) (ds : List (RoutingDecision F))
      (attempts : ℕ) (last : Option ProviderApiError) (s : Shared F)
      → IsBalanced world
      → (j : String)
      → in_use (attempt_all py rnd c r world ds attempts last s).state.limiter j
        ≡ in_use s.limiter j
  unfolding attempt_all after_success on_success with_limiter
  attempt_all-in_use r world [] attempts last s b j = refl
  attempt_all-in_use r world (d ∷ ds) attempts last s b j =
      let s' = awaited py rnd c (world attempts) d s in
      let held = awaited-Holds world attempts d s b in
      attempt_intro py rnd c r world (λ t. in_use t.state.limiter j ≡ in_use s.limiter j) d ds
        attempts last s refl (λ sent result q h. give_back d.provider s.limiter s' held j)
        (λ sent q h. give_back d.provider s.limiter s' held j)
        (λ sent e q h.
          attempt_all-in_use r world ds (attempts + 1) (some e)
            (after_failure py rnd c (world attempts) (attempts + 1) d e s') b j
          ∙ after_failure-in_use world attempts (attempts + 1) d e s.limiter s' b held j)

  -- However a call ends (served, given up, or by an exception of any kind), and whatever else the other
  -- tasks do meanwhile, if they give back the slots that they take then so does the call: of every
  -- provider as many slots are in use after it as before it.
  pub execute-in_use :
      (now : ℕ) (r : ChatCompletionRequest) (world : ℕ → Round F) (s : Shared F)
      → IsBalanced world
      → (j : String) → in_use (execute py rnd c now r world s).state.limiter j ≡ in_use s.limiter j
  unfolding execute eligible_decisions
  execute-in_use now r world s b j =
      let (ranked, rl) = rank now s.registry s.latency_stats r s.limiter in
      let s₁ = record s { limiter = rl } in
      let (ds, s₂) = allowed c.breaker now ranked s₁ in
      attempt_all-in_use r world ds 0 none s₂ b j
      ∙ (ap (λ x. in_use x j) (allowed-limiter c.breaker now ranked s₁)
          ∙ rank-in_use now s.registry s.latency_stats r s.limiter j)
