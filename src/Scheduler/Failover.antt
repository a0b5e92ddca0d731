-- ===== src/Scheduler/Failover.antt =====
-- Failover in `execute` of app/core/scheduler.py: a provider that answers is reached.
use noxis_api_provider.Prelude.{
  ℕ, ◌+◌, ◌≤◌, ◌<◌, String, ◌≡◌, refl, sym, ◌∙◌, subst, Bool, false, Option, none, some, List, [],
  ◌∷◌, ◌++◌, length, All, In, leb, ◌==◌, if◌then◌else◌, if_intro, arith,
}
use noxis_api_provider.Float.{Float}
use noxis_api_provider.Schemas.{ChatCompletionRequest}
use noxis_api_provider.Provider.{Provider, ProviderResult, ProviderApiError, unavailable}
use noxis_api_provider.Provider.Names.{names-update, find-names}
use noxis_api_provider.RateLimiter.{acquire, record_429}
use noxis_api_provider.RateLimiter
use noxis_api_provider.CircuitBreaker.{
  CircuitBreaker, Random, record_failure, count_failure, backoff_delay,
}
use noxis_api_provider.Router.{RoutingDecision}
use noxis_api_provider.Adapter.{
  Python, HttpRequest, returned, failed, post_request, chat_completion,
}
use noxis_api_provider.Scheduler.Known.{known, eligible_decisions-known, eligible_decisions-names}
use noxis_api_provider.Scheduler.{
  Shared, Scheduler, Round, served, with_limiter, with_provider, on_failure, exchange,
  after_failure, awaited, attempt_all, execute, eligible_decisions,
}

-- Other tasks neither add a provider nor take one away.
pub record KeepsProviders {F : Type 0} ⦃f : Float F⦄ (world : ℕ → Round F) : Type 0 where
  pub call : (i : ℕ) (s : Shared F) → known ((world i).during_call s) ≡ known s
  pub sleep : (i delay : ℕ) (s : Shared F) → known ((world i).during_sleep delay s) ≡ known s

-- Whatever is sent in the round, the adapter raises ProviderAPIError.
abbrev pub RoundFails : Python → {F : Type 0} → Round F → Type 0
RoundFails py round =
    (name : String) (q : HttpRequest)
    → (e : ProviderApiError) × (chat_completion py name round.latency (round.answer q) ≡ failed e)

-- Whatever is sent in the round, the adapter returns a result.
abbrev pub RoundAnswers : Python → {F : Type 0} → Round F → Type 0
RoundAnswers py round =
    (name : String) (q : HttpRequest)
    → (result : ProviderResult) × (chat_completion py name round.latency (round.answer q)
        ≡ returned result)

lt→leb : {m n : ℕ} → m < n → leb n m ≡ false
lt→leb h = ground arith

record_failure-name :
    (b : CircuitBreaker) (now : ℕ) (transient : Bool) (p : Provider)
    → (record_failure b now transient p).name ≡ p.name
unfolding record_failure count_failure
record_failure-name b now transient p = ground arith

module _ {F : Type 0} ⦃f : Float F⦄ (py : Python) (rnd : Random) (c : Scheduler) where
  on_failure-known :
      (now : ℕ) (name : String) (e : ProviderApiError) (s : Shared F)
      → known (on_failure c now name e s) ≡ known s
  unfolding on_failure
  on_failure-known now name e s =
      let s₁ = with_limiter (RateLimiter.record_failure name) s in
      let limited = with_limiter (record_429 now name e.retry_after) s₁ in
      let s₂ : Shared F = if e.status_code == 429 then limited else s₁ in
      let k₂ : known s₂ ≡ known s =
        if_intro (λ (x : Shared F). known x ≡ known s) (e.status_code == 429) limited s₁ (λ _. refl)
          (λ _. refl) in
      let k₃ =
        names-update name (record_failure c.breaker now e.retryable) s₂.registry.providers
          (record_failure-name c.breaker now e.retryable)
        ∙ k₂ in
      let s₃ = with_provider name (record_failure c.breaker now e.retryable) s₂ in
      if_intro (λ (x : Shared F). known x ≡ known s) e.retryable s₃
        (with_provider name (λ p. record p { health = unavailable }) s₃) (λ _. k₃)
        (λ _.
          names-update name (λ p. record p { health = unavailable }) s₃.registry.providers
            (λ p. refl)
          ∙ k₃)

  exchange-found :
      (r : ChatCompletionRequest) (round : Round F) (d : RoutingDecision F) (s : Shared F)
      → In d.provider (known s)
      → (q : HttpRequest) × (name : String) × (exchange py rnd c r round d s
          ≡ (q ∷ [], chat_completion py name round.latency (round.answer q)))
  unfolding exchange
  exchange-found r round d s m =
      let (p, e) = find-names d.provider s.registry.providers m in
      (post_request p (record r { model = d.model }), p.name, rw (e, exchange) refl)

  after_failure-known :
      (world : ℕ → Round F) (i n : ℕ) (d : RoutingDecision F) (e : ProviderApiError) (s : Shared F)
      → KeepsProviders world
      → known (after_failure py rnd c (world i) n d e (awaited py rnd c (world i) d s)) ≡ known s
  unfolding after_failure awaited
  after_failure-known world i n d e s k =
      let s₀ = with_limiter (acquire (world i).started d.provider) s in
      let s' = (world i).during_call s₀ in
      let s₁ = on_failure c (world i).ended d.provider e s' in
      let delay = backoff_delay rnd n c.backoff_base c.backoff_cap e.retry_after in
      let k₁ = on_failure-known (world i).ended d.provider e s' ∙ k.call i s₀ in
      if_intro (λ (x : Shared F). known x ≡ known s) e.retryable ((world i).during_sleep delay s₁)
        s₁ (λ _. k.sleep i delay s₁ ∙ k₁) (λ _. k₁)

  -- One round of each kind, where retries are left.
  round_fails :
      (r : ChatCompletionRequest) (world : ℕ → Round F) (d : RoutingDecision F)
      (ds : List (RoutingDecision F)) (n : ℕ) (last : Option ProviderApiError) (s : Shared F)
      → n < c.max_retries
      → In d.provider (known s)
      → RoundFails py (world n)
      → (e : ProviderApiError) × ((attempt_all py rnd c r world (d ∷ ds) n last s).verdict
          ≡ (attempt_all py rnd c r world ds (n + 1) (some e) (
              after_failure py rnd c
                (world n)
                (n + 1)
                d
                e
                (awaited py rnd c (world n) d s))).verdict)
  unfolding attempt_all with_limiter
  round_fails r world d ds n last s h m fails =
      let s₀ = with_limiter (acquire (world n).started d.provider) s in
      let (q, name, sends) = exchange-found r (world n) d s₀ m in
      let (e, err) = fails name q in (e, rw (lt→leb h, sends, err, attempt_all) refl)

  round_answers :
      (r : ChatCompletionRequest) (world : ℕ → Round F) (d : RoutingDecision F)
      (ds : List (RoutingDecision F)) (n : ℕ) (last : Option ProviderApiError) (s : Shared F)
      → n < c.max_retries
      → In d.provider (known s)
      → RoundAnswers py (world n)
      → (result : ProviderResult) × ((attempt_all py rnd c r world (d ∷ ds) n last s).verdict
          ≡ served result d.provider)
  unfolding attempt_all with_limiter
  round_answers r world d ds n last s h m answers =
      let s₀ = with_limiter (acquire (world n).started d.provider) s in
      let (q, name, sends) = exchange-found r (world n) d s₀ m in
      let (result, good) = answers name q in (result, rw (lt→leb h, sends, good, attempt_all) refl)

  -- With the rounds before it failing and its own round answering, a provider is served from.
  reached :
      (r : ChatCompletionRequest) (world : ℕ → Round F) (before : List (RoutingDecision F))
      (d : RoutingDecision F) (after : List (RoutingDecision F)) (n : ℕ)
      (last : Option ProviderApiError) (s : Shared F)
      → n + length before < c.max_retries
      → KeepsProviders world
      → All (λ (e : RoutingDecision F). In e.provider (known s)) (before ++ d ∷ after)
      → ((i : ℕ) → n ≤ i → i < n + length before → RoundFails py (world i))
      → RoundAnswers py (world (n + length before))
      → (result : ProviderResult) × ((attempt_all py rnd c r world
            (before ++ d ∷ after)
            n
            last
            s).verdict
          ≡ served result d.provider)
  reached r world [] d after n last s h k m fails answers =
      round_answers r world d after n last s (omega arith) m.0
        (subst (λ i. RoundAnswers py (world i)) (omega arith) answers)
  reached r world (b ∷ before) d after n last s h k m fails answers =
      let (e, step) =
        round_fails r world b (before ++ d ∷ after) n last s (omega arith) m.0
          (fails n (omega arith) (omega arith)) in
      let s' = after_failure py rnd c (world n) (n + 1) b e (awaited py rnd c (world n) b s) in
      let same = after_failure-known world n (n + 1) b e s k in
      let (result, good) =
        reached r world before d after (n + 1) (some e) s' (omega arith) k
          (subst (λ ns. All (λ (e : RoutingDecision F). In e.provider ns) (before ++ d ∷ after))
            (sym same) m.1)
          (λ i lo hi. fails i (omega arith) (omega arith))
          (subst (λ i. RoundAnswers py (world i)) (omega arith) answers) in
      (result, step ∙ good)

  -- Failover finds the provider that works: if, of the providers let through, the first ones raise
  -- ProviderAPIError and the next one answers within the first `max_retries` rounds, the call is served
  -- by that one, whatever the other tasks do but adding and removing providers.
  pub execute-served :
      (now : ℕ) (r : ChatCompletionRequest) (world : ℕ → Round F) (s : Shared F)
      (before : List (RoutingDecision F)) (d : RoutingDecision F) (after : List (RoutingDecision F))
      → (eligible_decisions c.breaker now r s).0 ≡ before ++ d ∷ after
      → length before < c.max_retries
      → KeepsProviders world
      → ((i : ℕ) → i < length before → RoundFails py (world i))
      → RoundAnswers py (world (length before))
      → (result : ProviderResult) × ((execute py rnd c now r world s).verdict
          ≡ served result d.provider)
  unfolding execute
  execute-served now r world s before d after e h k fails answers =
      let (ds, s') = eligible_decisions c.breaker now r s in
      let there : All (λ (d : RoutingDecision F). In d.provider (known s')) ds =
        subst (λ ns. All (λ (d : RoutingDecision F). In d.provider ns) ds)
          (sym (eligible_decisions-names c.breaker now r s))
          (eligible_decisions-known c.breaker now r s) in
      subst
        (λ l.
          (result : ProviderResult) × ((attempt_all py rnd c r world l 0 none s').verdict
            ≡ served result d.provider))
        (sym e)
        (reached r world before d after 0 none s' (omega arith) k
          (subst (All (λ (d : RoutingDecision F). In d.provider (known s'))) e there)
          (λ i lo hi. fails i (omega arith))
          (subst (λ i. RoundAnswers py (world i)) (omega arith) answers))
