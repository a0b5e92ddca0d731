-- ===== src/Scheduler/Known.antt =====
-- The decisions of app/core/scheduler.py refer to providers of the registry.
use noxis_api_provider.Prelude.{
  ℕ, String, ◌≡◌, refl, Option, none, some, List, [], ◌∷◌, keep, ◌∙◌, arith, All, All-append,
  All-filter, All-self, All-map, In, In-map, str_eq, if_intro, inl, inr, Option-cases,
}
use noxis_api_provider.Float.{Float}
use noxis_api_provider.Dict.{Dict}
use noxis_api_provider.Sort.{All-sort}
use noxis_api_provider.Schemas.{ChatCompletionRequest}
use noxis_api_provider.Provider.{Provider, find, is_api_key, is_empty}
use noxis_api_provider.Provider.Names.{names, names-update}
use noxis_api_provider.RateLimiter.{RateLimiter}
use noxis_api_provider.ProviderRegistry.{ProviderRegistry, enabled}
use noxis_api_provider.ModelRegistry.{candidate_providers_for_model, by_priority}
use noxis_api_provider.CircuitBreaker.{CircuitBreaker, allow_request}
use noxis_api_provider.Eligibility.{eligible, is_eligible, resolve_model_for_provider}
use noxis_api_provider.Scoring.{score}
use noxis_api_provider.Router.{RoutingDecision, decide, decisions, by_score, rank}
use noxis_api_provider.Scheduler.{Shared, allowed, with_provider, eligible_decisions}

-- What holds of every provider of the registry holds of the candidates for a model.
candidates-All {κ} :
    (P : Provider → Type κ) (reg : ProviderRegistry) (model : String)
    → All P reg.providers
    → All P (candidate_providers_for_model reg model)
unfolding candidate_providers_for_model by_priority
candidates-All P reg model ps =
    let on : All P (enabled reg) = unfold enabled in All-filter P _ reg.providers ps in
    if_intro (All P) (str_eq model "noxis-free") _ _ (λ _. All-filter P _ (enabled reg) on)
      (λ _.
        if_intro (All P) (str_eq model "noxis-auto") _ _ (λ _. on)
          (λ _.
            if_intro (All P) (str_eq model "noxis-fast") _ _ (λ _. All-sort _ P (enabled reg) on)
              (λ _.
                if_intro (All P) (str_eq model "noxis-smart") _ _
                  (λ _.
                    if_intro (All P)
                      (is_empty (keep (λ p. is_api_key p.provider_type) (enabled reg))) _ _
                      (λ _. on) (λ _. All-filter P _ (enabled reg) on))
                  (λ _. All-filter P _ (enabled reg) on))))

eligible-All {κ} :
    (P : Provider → Type κ) (now : ℕ) (reg : ProviderRegistry) (r : ChatCompletionRequest)
    (ps : List Provider) (rl : RateLimiter)
    → All P ps
    → All P (eligible now reg r ps rl).0
unfolding eligible
eligible-All P now reg r [] rl h = tt
eligible-All P now reg r (p ∷ ps) rl h =
    let (ok, rl') = is_eligible now reg r p rl in
    let rest = eligible-All P now reg r ps rl' h.1 in
    if_intro (All P) ok _ _ (λ _. (h.0, rest)) (λ _. rest)

allow_request-name :
    (b : CircuitBreaker) (now : ℕ) (p : Provider) → (allow_request b now p).1.name ≡ p.name
unfolding allow_request
allow_request-name b now p = ground arith

module _ {F : Type 0} ⦃f : Float F⦄ (ns : List String) where
  abbrev Refers : RoutingDecision F → Type 0
  Refers d = In d.provider ns

  decide-Refers :
      (r : ChatCompletionRequest) (p : Provider) (s : F) → In p.name ns → All Refers (decide r p s)
  unfolding decide
  decide-Refers r p s m = by_model (resolve_model_for_provider p r.model)
    where
      by_model :
          (o : Option String)
          → All Refers (elim o [
            | none ↦ []
            | some model ↦ record { provider = p.name; model = model; score = s } ∷ []
          ])
      by_model none = tt
      by_model (some model) = (m, tt)

  decisions-Refers :
      (now : ℕ) (r : ChatCompletionRequest) (fit : List Provider) (stats : Dict F)
      (ps : List Provider) (rl : RateLimiter)
      → All (λ p. In p.name ns) ps
      → All Refers (decisions now r fit stats ps rl).0
  unfolding decisions
  decisions-Refers now r fit stats [] rl h = tt
  decisions-Refers now r fit stats (p ∷ ps) rl h =
      let (s, rl') = score now r fit stats p rl in
      All-append Refers (decide r p s) _ (decide-Refers r p s h.0)
        (decisions-Refers now r fit stats ps rl' h.1)

  rank-Refers :
      (now : ℕ) (reg : ProviderRegistry) (stats : Dict F) (r : ChatCompletionRequest)
      (rl : RateLimiter)
      → All (λ p. In p.name ns) reg.providers
      → All Refers (rank now reg stats r rl).0
  unfolding rank by_score
  rank-Refers now reg stats r rl h =
      let cs = candidate_providers_for_model reg r.model in
      let (fit, rl') = eligible now reg r cs rl in
      All-sort _ Refers (decisions now r fit stats fit rl').0 (
        decisions-Refers now r fit stats fit rl'
          (eligible-All _ now reg r cs rl (candidates-All _ reg r.model h)))

  allowed-Refers :
      (b : CircuitBreaker) (now : ℕ) (ds : List (RoutingDecision F)) (s : Shared F)
      → All Refers ds
      → All Refers (allowed b now ds s).0
  unfolding allowed
  allowed-Refers b now [] s h = tt
  allowed-Refers b now (d ∷ ds) s h = elim (Option-cases (find d.provider s.registry.providers)) [
    | inl e ↦ rw (e, allowed) (allowed-Refers b now ds s h.1)
    | inr (p, e) ↦
        let s' = with_provider d.provider (λ o. (allow_request b now o).1) s in
        let rest = allowed-Refers b now ds s' h.1 in
        rw (e, allowed)
          (if_intro (All Refers) (allow_request b now p).0 _ _ (λ _. (h.0, rest)) (λ _. rest))
  ]

  -- All decisions of a call refer to providers of the registry.
  eligible_decisions-Refers :
      (b : CircuitBreaker) (now : ℕ) (r : ChatCompletionRequest) (s : Shared F)
      → All (λ p. In p.name ns) s.registry.providers
      → All Refers (eligible_decisions b now r s).0
  unfolding eligible_decisions
  eligible_decisions-Refers b now r s h =
      let (ranked, rl) = rank now s.registry s.latency_stats r s.limiter in
      allowed-Refers b now ranked (record s { limiter = rl })
        (rank-Refers now s.registry s.latency_stats r s.limiter h)

module _ {F : Type 0} ⦃f : Float F⦄ where
  abbrev pub known : Shared F → List String
  known s = names s.registry.providers

  pub eligible_decisions-known :
      (b : CircuitBreaker) (now : ℕ) (r : ChatCompletionRequest) (s : Shared F)
      → All (λ (d : RoutingDecision F). In d.provider (known s)) (eligible_decisions b now r s).0
  eligible_decisions-known b now r s = eligible_decisions-Refers (known s) b now r s (
      All-map (λ p. In p s.registry.providers) (λ p. In p.name (known s)) s.registry.providers
        (λ p m. In-map (λ q. q.name) p s.registry.providers m) (All-self s.registry.providers))

  allowed-known :
      (b : CircuitBreaker) (now : ℕ) (ds : List (RoutingDecision F)) (s : Shared F)
      → known (allowed b now ds s).1 ≡ known s
  unfolding allowed
  allowed-known b now [] s = refl
  allowed-known b now (d ∷ ds) s = elim (Option-cases (find d.provider s.registry.providers)) [
    | inl e ↦ rw (e, allowed) (allowed-known b now ds s)
    | inr (p, e) ↦
        let g = λ (o : Provider). (allow_request b now o).1 in
        rw (e, allowed)
          (allowed-known b now ds (with_provider d.provider g s)
            ∙ names-update d.provider g s.registry.providers (allow_request-name b now))
  ]

  -- The breaker's tests add and remove no provider.
  pub eligible_decisions-names :
      (b : CircuitBreaker) (now : ℕ) (r : ChatCompletionRequest) (s : Shared F)
      → known (eligible_decisions b now r s).1 ≡ known s
  unfolding eligible_decisions
  eligible_decisions-names b now r s =
      let (ranked, rl) = rank now s.registry s.latency_stats r s.limiter in
      allowed-known b now ranked (record s { limiter = rl })
