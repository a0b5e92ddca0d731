-- ===== src/Router/Ranking.antt =====
-- Which providers `rank` of app/core/router.py returns.
use mathlib.Core.Path.{subst, ap₂}
use mathlib.Core.List.{Perm, map-append}
use mathlib.Core.List.Perm
use noxis_api_provider.Prelude.{
  ℕ, ◌≡◌, ◌≢◌, refl, sym, ap, ◌∙◌, Bool, true, none, List, [], ◌∷◌, ◌++◌, map, keep, All, inl, inr,
  Option-cases, if_intro, arith,
}
use noxis_api_provider.Float.{Float}
use noxis_api_provider.Sort.{sort-perm}
use noxis_api_provider.Dict.{Dict}
use noxis_api_provider.Schemas.{ChatCompletionRequest}
use noxis_api_provider.Provider.{Provider}
use noxis_api_provider.RateLimiter.{RateLimiter}
use noxis_api_provider.ProviderRegistry.{ProviderRegistry}
use noxis_api_provider.ModelRegistry.{candidate_providers_for_model}
use noxis_api_provider.Eligibility.{resolve_model_for_provider, passes, eligible}
use noxis_api_provider.Eligibility.Sound.{is_fit, eligible-keep}
use noxis_api_provider.Scoring.{score}
use noxis_api_provider.Router.{RoutingDecision, decide, decisions, by_score, rank}

-- There is a model to send.
abbrev HasModel : ChatCompletionRequest → Provider → Type 0
HasModel r p = resolve_model_for_provider p r.model ≢ none

fit-HasModel :
    (now : ℕ) (reg : ProviderRegistry) (r : ChatCompletionRequest) (rl : RateLimiter) (p : Provider)
    → is_fit now reg r rl p ≡ true
    → HasModel r p
unfolding passes
fit-HasModel now reg r rl p h e = ground arith

All-keep :
    {A : Type 0} (P : A → Type 0) (p : A → Bool) (xs : List A)
    → ((a : A) → p a ≡ true → P a)
    → All P (keep p xs)
All-keep P p [] h = tt
All-keep P p (x ∷ xs) h =
    if_intro (All P) (p x) _ _ (λ e. (h x e, All-keep P p xs h)) (λ e. All-keep P p xs h)

module _ {ℓ} {F : Type ℓ} ⦃f : Float F⦄ where
  -- The order of the sort.
  abbrev pub worse : RoutingDecision F → RoutingDecision F → Bool
  worse d e = f.lt d.score e.score

  decide-provider :
      (r : ChatCompletionRequest) (p : Provider) (s : F)
      → HasModel r p
      → map (λ (d : RoutingDecision F). d.provider) (decide r p s) ≡ p.name ∷ []
  unfolding decide
  decide-provider r p s h = elim (Option-cases (resolve_model_for_provider p r.model)) [
    | inl e ↦ absurd (h e)
    | inr (m, e) ↦ rw (e, decide) refl
  ]

  decisions-providers :
      (now : ℕ) (r : ChatCompletionRequest) (fit : List Provider) (stats : Dict F)
      (ps : List Provider) (rl : RateLimiter)
      → All (HasModel r) ps
      → map (λ (d : RoutingDecision F). d.provider) (decisions now r fit stats ps rl).0
        ≡ map (λ (p : Provider). p.name) ps
  unfolding decisions
  decisions-providers now r fit stats [] rl h = refl
  decisions-providers now r fit stats (p ∷ ps) rl h =
      let (s, rl') = score now r fit stats p rl in
      map-append _ (decide r p s) (decisions now r fit stats ps rl').0
      ∙ ap₂ (λ a b. a ++ b) (decide-provider r p s h.0)
          (decisions-providers now r fit stats ps rl' h.1)

  -- The ranking names exactly the candidates for the model that pass every hard filter, each as often
  -- as it is a candidate: scoring drops nobody, and every ranked provider has a model to be sent.
  pub rank-perm :
      (now : ℕ) (reg : ProviderRegistry) (stats : Dict F) (r : ChatCompletionRequest)
      (rl : RateLimiter)
      → Perm (map (λ (d : RoutingDecision F). d.provider) (rank now reg stats r rl).0) (
          map
            (λ (p : Provider). p.name)
            (keep (is_fit now reg r rl) (candidate_providers_for_model reg r.model)))
  unfolding rank by_score
  rank-perm now reg stats r rl =
      let cs = candidate_providers_for_model reg r.model in
      let (fit, rl') = eligible now reg r cs rl in
      let kept : fit ≡ keep (is_fit now reg r rl) cs = eligible-keep now reg r cs rl in
      let models : All (HasModel r) fit =
        subst (All (HasModel r)) (sym kept)
          (All-keep (HasModel r) _ cs (fit-HasModel now reg r rl)) in
      subst
        (λ names.
          Perm
            (map (λ (d : RoutingDecision F). d.provider)
              (by_score (decisions now r fit stats fit rl').0))
            names)
        (decisions-providers now r fit stats fit rl' models
          ∙ ap (map λ (p : Provider). p.name) kept)
        (Perm.map _ (sort-perm worse (decisions now r fit stats fit rl').0))
