-- ===== src/Router.antt =====
-- app/core/router.py, `rank` and `observe_latency`. The floats are a parameter.
pub mod Ranking
pub mod Slots
pub mod Tests
use noxis_api_provider.Prelude.{ℕ, String, none, some, List, [], ◌∷◌, ◌++◌}
use noxis_api_provider.Float.{Float}
use noxis_api_provider.Sort.{sort}
use noxis_api_provider.Dict
use noxis_api_provider.Dict.{Dict}
use noxis_api_provider.Schemas.{ChatCompletionRequest}
use noxis_api_provider.Provider.{Provider}
use noxis_api_provider.RateLimiter.{RateLimiter}
use noxis_api_provider.Eligibility.{resolve_model_for_provider, eligible}
use noxis_api_provider.Scoring.{score}
use noxis_api_provider.ProviderRegistry.{ProviderRegistry}
use noxis_api_provider.ModelRegistry.{candidate_providers_for_model}

-- A ranked provider: the concrete model to send, and the score. A provider is
-- referred to by its name.
pub record RoutingDecision {ℓ} (F : Type ℓ) : Type ℓ where
  pub provider : String
  pub model : String
  pub score : F

module _ {ℓ} {F : Type ℓ} ⦃f : Float F⦄ where
  open f use {ratio, add, mul, lt}

  -- The decision of an eligible provider; the filter has excluded the case with no model.
  unfoldable pub decide : ChatCompletionRequest → Provider → F → List (RoutingDecision F)
  decide r p s = elim (resolve_model_for_provider p r.model) [
    | none ↦ []
    | some model ↦ record { provider = p.name; model = model; score = s } ∷ []
  ]

  unfoldable pub decisions :
      ℕ
      → ChatCompletionRequest
      → List Provider
      → Dict F
      → List Provider
      → RateLimiter
      → List (RoutingDecision F) × RateLimiter
  decisions now r candidates stats [] rl = ([], rl)
  decisions now r candidates stats (p ∷ ps) rl =
      let (s, rl') = score now r candidates stats p rl in
      let (rest, rl'') = decisions now r candidates stats ps rl' in (decide r p s ++ rest, rl'')

  -- decisions.sort(key=lambda d: d.score, reverse=True)
  unfoldable pub by_score : List (RoutingDecision F) → List (RoutingDecision F)
  by_score = sort (λ d e. lt d.score e.score)

  unfoldable pub rank :
      ℕ
      → ProviderRegistry
      → Dict F
      → ChatCompletionRequest
      → RateLimiter
      → List (RoutingDecision F) × RateLimiter
  rank now reg stats r rl =
      let (fit, rl') = eligible now reg r (candidate_providers_for_model reg r.model) rl in
      let (found, rl'') = decisions now r fit stats fit rl' in (by_score found, rl'')

  unfoldable pub observe_latency : String → F → Dict F → Dict F
  unfolding Dict.get Dict.set
  observe_latency name latency_ms stats = elim (Dict.get name stats) [
    | none ↦ Dict.set name latency_ms stats
    | some prev ↦ Dict.set name (add (mul (ratio 7 10) prev) (mul (ratio 3 10) latency_ms)) stats
  ]
