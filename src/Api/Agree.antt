-- ===== src/Api/Agree.antt =====
-- How the endpoints of app/api/health.py agree.
use noxis_api_provider.Prelude.{
  ℕ, ◌<◌, String, ◌≡◌, refl, sym, ap, ◌∙◌, ◌↔◌, List, [], ◌∷◌, map, keep, count, length, str_eq,
  Bool-cases, inl, inr, if◌then◌else◌, arith,
}
use noxis_api_provider.Float.{Float}
use noxis_api_provider.Dict
use noxis_api_provider.Provider.{
  Provider, ProviderHealth, unknown, checking, healthy, rate_limited, cooldown, unavailable,
  circuit_open, is_empty,
}
use noxis_api_provider.Provider.Names.{names}
use noxis_api_provider.ProviderRegistry.{ProviderRegistry, enabled}
use noxis_api_provider.RateLimiter.{RateLimiter, snapshot}
use noxis_api_provider.Router.Slots.{in_use, snapshot-in_use}
use noxis_api_provider.Usage.{UsageRecord, tally}
use noxis_api_provider.Usage.Counts.{get_or-tally, count-map}
use noxis_api_provider.App.{App}
use noxis_api_provider.Api.Admin.{is_on}
use noxis_api_provider.Api.Health.{
  ProviderListing, health_value, is_healthy, listing, listings, health, providers_list, status,
}

health_value-healthy : (h : ProviderHealth) → str_eq (health_value h) "healthy" ≡ is_healthy h
unfolding health_value is_healthy
health_value-healthy unknown = refl
health_value-healthy checking = refl
health_value-healthy healthy = refl
health_value-healthy rate_limited = refl
health_value-healthy cooldown = refl
health_value-healthy unavailable = refl
health_value-healthy circuit_open = refl

length-healthy :
    (ps : List Provider)
    → length (keep (λ p. is_healthy p.health) ps)
      ≡ count (λ p. str_eq (health_value p.health) "healthy") ps
length-healthy [] = refl
length-healthy (p ∷ ps) = ground (arith, length-healthy ps, health_value-healthy p.health)

tallied :
    (value : String) (ps : List Provider)
    → Dict.get_or value 0 (tally (map (λ p. health_value p.health) ps) [])
      ≡ count (λ p. str_eq (health_value p.health) value) ps
unfolding Dict.get_or
tallied value ps = omega (
  arith,
  get_or-tally value (map (λ p. health_value p.health) ps) [],
  count-map (λ (p : Provider). health_value p.health) value ps,
)

ok_iff :
    (ps : List Provider)
    → (◌≡◌ {A = String} (if is_empty ps then "degraded" else "ok") "ok") ↔ (0 < length ps)
ok_iff [] = (λ q. absurd (cc), λ h. absurd (omega arith))
ok_iff (p ∷ ps) = (λ q. omega arith, λ h. refl)

module _ {ℓ} {F : Type ℓ} {C : Type 0} ⦃f : Float F⦄ where
  -- The status counts under each health the providers that have it, so that /health and /v1/status give
  -- the same number of healthy providers; and /health says "ok" exactly if that is not 0.
  pub health-status :
      (query : ℕ → List (UsageRecord F) → List (UsageRecord F)) (app : App F C) (value : String)
      → let by_health = (status query app).providers_by_health in
        (Dict.get_or value 0 by_health
          ≡ count (λ p. str_eq (health_value p.health) value) app.shared.registry.providers)
        × ((health app).providers_healthy ≡ Dict.get_or "healthy" 0 by_health)
        × (((health app).status ≡ "ok") ↔ (0 < Dict.get_or "healthy" 0 by_health))
  unfolding status health
  health-status query app value =
      let ps = app.shared.registry.providers in
      let of_value = tallied value ps in
      let well = tallied "healthy" ps ∙ sym (length-healthy ps) in
      (of_value, sym well, rw well (ok_iff (keep (λ p. is_healthy p.health) ps)))

listings-entries :
    (clock : String → ℕ) (r : ProviderRegistry) (ps : List Provider) (rl : RateLimiter)
    → map
        (λ (e : ProviderListing). e.name)
        (keep (λ (e : ProviderListing). e.enabled) (listings clock r ps rl).0)
      ≡ names (keep (is_on r) ps)
unfolding listings listing
listings-entries clock r [] rl = refl
listings-entries clock r (p ∷ ps) rl =
    let rest = listings-entries clock r ps (snapshot (clock p.name) p.name rl).1 in
    elim (Bool-cases (is_on r p)) [
      | inl e ↦ rw (e, listings, listing) (ap (λ x. p.name ∷ x) rest)
      | inr e ↦ rw (e, listings, listing) rest
    ]

listings-in_use :
    (clock : String → ℕ) (r : ProviderRegistry) (ps : List Provider) (rl : RateLimiter) (j : String)
    → in_use (listings clock r ps rl).1 j ≡ in_use rl j
unfolding listings
listings-in_use clock r [] rl j = refl
listings-in_use clock r (p ∷ ps) rl j =
    listings-in_use clock r ps (snapshot (clock p.name) p.name rl).1 j
    ∙ snapshot-in_use (clock p.name) p.name j rl

module _ {ℓ} {F : Type ℓ} {C : Type 0} where
  -- The providers that /v1/providers shows as enabled are those that requests are routed to, in their
  -- order; and to list them takes and frees no slot.
  pub providers_list-enabled :
      (clock : String → ℕ) (app : App F C) (j : String)
      → let (entries, app') = providers_list clock app in
        (map (λ (e : ProviderListing). e.name) (keep (λ (e : ProviderListing). e.enabled) entries)
          ≡ names (enabled app.shared.registry))
        × (in_use app'.shared.limiter j ≡ in_use app.shared.limiter j)
  unfolding providers_list enabled is_on
  providers_list-enabled clock app j =
      let r = app.shared.registry in
      (
        listings-entries clock r r.providers app.shared.limiter,
        listings-in_use clock r r.providers app.shared.limiter j,
      )
