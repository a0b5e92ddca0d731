-- ===== src/Api/Health.antt =====
-- app/api/health.py: the endpoints that ask for no key. The enumerations stand for their values, but for
-- the keys of a dict.
use noxis_api_provider.Prelude.{
  ℕ, String, Bool, true, false, ◌&&◌, not, List, [], ◌∷◌, map, keep, length, ℤ, if◌then◌else◌,
}
use noxis_api_provider.Float.{Float}
use noxis_api_provider.Dict.{Dict}
use noxis_api_provider.Provider.{
  Provider, ProviderType, ProviderHealth, unknown, checking, healthy, rate_limited, cooldown,
  unavailable, circuit_open, CircuitState, ModelSpec, is_keyless, is_empty,
}
use noxis_api_provider.ProviderRegistry.{ProviderRegistry}
use noxis_api_provider.RateLimiter.{RateLimiter, Snapshot, snapshot}
use noxis_api_provider.Usage.{UsageRecord, Summary, summary, tally}
use noxis_api_provider.Config.{Environment}
use noxis_api_provider.App.{App}
use noxis_api_provider.Api.Admin.{is_on}

pub record HealthReport : Type 0 where
  pub status : String
  pub providers_total : ℕ
  pub providers_healthy : ℕ

pub record ProviderListing : Type 0 where
  pub name : String
  pub free_keyless : Bool
  pub type_ : ProviderType
  pub auth : String
  pub enabled : Bool
  pub health : ProviderHealth
  pub circuit_state : CircuitState
  pub priority : ℤ
  pub models : List String
  pub supports_streaming : Bool
  pub supports_tools : Bool
  pub supports_vision : Bool
  pub rate_limit : Snapshot

-- The note, which is a fixed text, is left out.
pub record StatusReport {ℓ} (F : Type ℓ) : Type ℓ where
  pub app : String
  pub version : String
  pub environment : Environment
  pub providers_by_health : Dict ℕ
  pub usage_summary : Summary F
  pub cache_enabled : Bool

-- p.health.value
unfoldable pub health_value : ProviderHealth → String
health_value unknown = "unknown"
health_value checking = "checking"
health_value healthy = "healthy"
health_value rate_limited = "rate_limited"
health_value cooldown = "cooldown"
health_value unavailable = "unavailable"
health_value circuit_open = "circuit_open"

unfoldable pub is_healthy : ProviderHealth → Bool
is_healthy healthy = true
is_healthy _ = false

unfoldable pub listing : ProviderRegistry → Provider → Snapshot → ProviderListing
unfolding is_on is_keyless
listing r p rate_limit = record {
  name = p.name;
  free_keyless = is_keyless p.provider_type && not p.requires_api_key;
  type_ = p.provider_type;
  auth = if p.requires_api_key then "required" else "none";
  enabled = is_on r p;
  health = p.health;
  circuit_state = p.circuit_state;
  priority = p.config.priority;
  models = map (λ (m : ModelSpec). m.name) p.config.models;
  supports_streaming = p.config.supports_streaming;
  supports_tools = p.config.supports_tools;
  supports_vision = p.config.supports_vision;
  rate_limit = rate_limit;
}

-- The loop of providers_list: a snapshot trims the window of its provider, at the time that it reads.
unfoldable pub listings :
    (String → ℕ)
    → ProviderRegistry
    → List Provider
    → RateLimiter
    → List ProviderListing × RateLimiter
unfolding listing
listings clock r [] rl = ([], rl)
listings clock r (p ∷ ps) rl =
    let (shot, rl') = snapshot (clock p.name) p.name rl in
    let (rest, rl'') = listings clock r ps rl' in (listing r p shot ∷ rest, rl'')

module _ {ℓ} {F : Type ℓ} {C : Type 0} where
  unfoldable pub health : App F C → HealthReport
  unfolding is_healthy
  health app =
      let ps = app.shared.registry.providers in
      let well = keep (λ p. is_healthy p.health) ps in
      record {
        status = if is_empty well then "degraded" else "ok";
        providers_total = length ps;
        providers_healthy = length well;
      }

  unfoldable pub providers_list : (String → ℕ) → App F C → List ProviderListing × App F C
  unfolding listings
  providers_list clock app =
      let (entries, limiter) =
        listings clock app.shared.registry app.shared.registry.providers app.shared.limiter in
      (entries, record app { shared = record (app.shared) { limiter = limiter } })

module _ {ℓ} {F : Type ℓ} {C : Type 0} ⦃f : Float F⦄ where
  -- `query` selects the latest rows, as many as its limit.
  unfoldable pub status :
      (ℕ → List (UsageRecord F) → List (UsageRecord F)) → App F C → StatusReport F
  unfolding health_value
  status query app = record {
    app = app.settings.app_name;
    version = app.settings.app_version;
    environment = app.settings.environment;
    providers_by_health = tally (map (λ p. health_value p.health) app.shared.registry.providers) [];
    usage_summary = summary (query 200 app.desk.rows);
    cache_enabled = app.settings.cache_enabled;
  }
