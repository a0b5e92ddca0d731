-- ===== src/Api/Admin.antt =====
-- app/api/admin.py: the endpoints of the administrator.
use Prim.Native.String.{◌++◌ as append}
use noxis_api_provider.Prelude.{
  ℕ, String, Bool, true, false, ◌&&◌, not, Option, List, [], ◌∷◌, ◌++◌, map, length, ℤ,
  if◌then◌else◌,
}
use noxis_api_provider.Float.{Float}
use noxis_api_provider.Errors.{not_found_error}
use noxis_api_provider.Provider.{Provider, ProviderType, ProviderHealth, CircuitState, has_text}
use noxis_api_provider.ProviderRegistry.{ProviderRegistry, is_admin_disabled, set_enabled}
use noxis_api_provider.HealthMonitor.{Probe, check_all_once}
use noxis_api_provider.Usage.{UsageRecord, Summary, summary}
use noxis_api_provider.Security.{Text, Result, accepted, refused, require_master}
use noxis_api_provider.Config.{Environment}
use noxis_api_provider.Deps.{authenticate}
use noxis_api_provider.Dict.{Dict}
use noxis_api_provider.App.{App, text_of}

-- The entries of the answers. The enumerations stand for their values.
pub record ProviderEntry : Type 0 where
  pub name : String
  pub type_ : ProviderType
  pub enabled : Bool
  pub health : ProviderHealth
  pub circuit_state : CircuitState
  pub priority : ℤ
  pub has_credential : Bool

pub record ConfigEntry : Type 0 where
  pub app_name : String
  pub version : String
  pub environment : Environment
  pub cache_enabled : Bool
  pub cache_ttl : ℕ
  pub max_retries : ℕ
  pub circuit_failure_threshold : ℕ
  pub circuit_cooldown_seconds : ℕ
  pub gateway_rate_limit_per_min : ℕ
  pub allow_unauthenticated : Bool
  pub providers_configured : ℕ

-- p.config.enabled and not registry.is_admin_disabled(p.name)
unfoldable pub is_on : ProviderRegistry → Provider → Bool
unfolding is_admin_disabled
is_on r p = p.config.enabled && not (is_admin_disabled p.name r)

unfoldable pub provider_entry : ProviderRegistry → Provider → ProviderEntry
unfolding is_on
provider_entry r p = record {
  name = p.name;
  type_ = p.provider_type;
  enabled = is_on r p;
  health = p.health;
  circuit_state = p.circuit_state;
  priority = p.config.priority;
  has_credential = has_text p.config.api_key;
}

unfoldable pub health_entry : Provider → String × ProviderHealth × CircuitState
health_entry p = (p.name, p.health, p.circuit_state)

module _ {ℓ} {F : Type ℓ} {C : Type 0} where
  -- The dependency on `require_master`, behind `authenticate`.
  unfoldable pub then_master : Text → Option String → App F C → Result String → Result String
  then_master py header app (refused e) = refused e
  then_master py header app (accepted id) =
      require_master py header (text_of app.settings.noxis_master_key) id

  unfoldable pub as_master : Text → ℕ → Option String → App F C → Result String × App F C
  unfolding then_master
  as_master py now header app =
      let (r, g) =
        authenticate py now header app.authenticator app.settings.allow_unauthenticated
          app.gateway_limiter in
      (then_master py header app r, record app { gateway_limiter = g })

  -- An endpoint behind it: what is done for the caller of this id.
  unfoldable pub guarded {κ} :
      {A : Type κ}
      → (String → App F C → Result A × App F C)
      → Result String × App F C
      → Result A × App F C
  guarded endpoint (refused e, app) = (refused e, app)
  guarded endpoint (accepted id, app) = endpoint id app

  -- UsageTracker.audit of app/core/usage.py
  abbrev pub audit : (actor_key_id action : String) (details : Dict String) → App F C → App F C
  audit actor_key_id action details app = record app {
    audits =
        app.audits
        ++ record { actor_key_id = actor_key_id; action = action; details = details } ∷ [];
  }

  -- The body of admin_enable and of admin_disable.
  unfoldable pub switch : Bool → String → String → App F C → Result Bool × App F C
  switch on name id app =
      let (known, registry) = set_enabled name on app.shared.registry in
      if not known
      then (refused (not_found_error (append "Unknown provider '" (append name "'."))), app)
      else (
        accepted on,
        audit id (if on then "provider_enable" else "provider_disable") (("provider", name) ∷ [])
            (record app { shared = record (app.shared) { registry = registry } }),
      )

  unfoldable pub admin_enable : Text → ℕ → Option String → String → App F C → Result Bool × App F C
  unfolding guarded as_master switch
  admin_enable py now header name app = guarded (switch true name) (as_master py now header app)

  unfoldable pub admin_disable : Text → ℕ → Option String → String → App F C → Result Bool × App F C
  unfolding guarded as_master switch
  admin_disable py now header name app = guarded (switch false name) (as_master py now header app)

  unfoldable pub provider_entries : App F C → List ProviderEntry
  unfolding provider_entry
  provider_entries app = map (provider_entry app.shared.registry) app.shared.registry.providers

  unfoldable pub config_entry : App F C → ConfigEntry
  config_entry app = record {
    app_name = app.settings.app_name;
    version = app.settings.app_version;
    environment = app.settings.environment;
    cache_enabled = app.settings.cache_enabled;
    cache_ttl = app.settings.cache_ttl;
    max_retries = app.settings.max_retries;
    circuit_failure_threshold = app.settings.circuit_failure_threshold;
    circuit_cooldown_seconds = app.settings.circuit_cooldown_seconds;
    gateway_rate_limit_per_min = app.settings.gateway_rate_limit_per_min;
    allow_unauthenticated = app.settings.allow_unauthenticated;
    providers_configured = length app.shared.registry.providers;
  }

  unfoldable pub admin_providers :
      Text → ℕ → Option String → App F C → Result (List ProviderEntry) × App F C
  unfolding guarded as_master provider_entries
  admin_providers py now header app =
      guarded (λ id app'. (accepted (provider_entries app'), app')) (as_master py now header app)

  unfoldable pub admin_config : Text → ℕ → Option String → App F C → Result ConfigEntry × App F C
  unfolding guarded as_master config_entry
  admin_config py now header app =
      guarded (λ id app'. (accepted (config_entry app'), app')) (as_master py now header app)

  -- The pass of the health monitor, with its probes, and then the list.
  unfoldable pub admin_health :
      Text
      → ℕ
      → (String → Probe F)
      → Option String
      → App F C
      → Result (List (String × ProviderHealth × CircuitState)) × App F C
  unfolding guarded as_master health_entry
  admin_health py now probes header app =
      guarded
        (λ id app'.
          let shared = check_all_once probes app'.shared in
          (accepted (map health_entry shared.registry.providers), record app' { shared = shared }))
        (as_master py now header app)

module _ {ℓ} {F : Type ℓ} {C : Type 0} ⦃f : Float F⦄ where
  -- `query` selects the latest rows, as many as its limit.
  unfoldable pub admin_usage :
      (ℕ → List (UsageRecord F) → List (UsageRecord F))
      → Text
      → ℕ
      → Option String
      → App F C
      → Result (Summary F) × App F C
  unfolding guarded as_master
  admin_usage query py now header app =
      guarded (λ id app'. (accepted (summary (query 1000 app'.desk.rows)), app'))
        (as_master py now header app)
