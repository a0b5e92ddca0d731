-- ===== src/HealthMonitor.antt =====
-- app/core/health_monitor.py: one pass over the providers. The event loop that starts a pass is left
-- out. Other tasks run while a probe is awaited.
pub mod Checked
pub mod Loop
pub mod Stop
pub mod Tests
use noxis_api_provider.Prelude.{ℕ, String, Option, List, [], ◌∷◌, if◌then◌else◌}
use noxis_api_provider.Dict
use noxis_api_provider.Provider.{
  Provider, ProviderHealth, rate_limited, checking, healthy, unavailable,
}
use noxis_api_provider.Provider.Names.{names}
use noxis_api_provider.RateLimiter.{window, is_rate_limited}
use noxis_api_provider.ProviderRegistry.Startup.{health_check}
use noxis_api_provider.Scheduler.{Shared, with_provider, with_limiter}

-- One provider's turn: the time at which the window is looked at, the status that answers the probe
-- (`none` for an exception), the time after it, and what other tasks do meanwhile.
pub record Probe {ℓ} (F : Type ℓ) : Type ℓ where
  pub started : ℕ
  pub status : Option ℕ
  pub ended : ℕ
  pub during : Shared F → Shared F

abbrev pub set_health : ProviderHealth → Provider → Provider
set_health h p = record p { health = h }

module _ {ℓ} {F : Type ℓ} where
  -- The writes after the probe.
  unfoldable pub checked : Probe F → Provider → Provider
  unfolding health_check
  checked probe p = record p {
    last_checked = probe.ended;
    health = if health_check probe.status then healthy else unavailable;
  }

  -- One round of the loop; `window` makes the window of a provider that has none.
  unfoldable pub check_one : Probe F → String → Shared F → Shared F
  unfolding with_provider with_limiter checked
  check_one probe name s =
      let s' = with_limiter (λ rl. Dict.set name (window name rl) rl) s in
      if is_rate_limited probe.started (window name s.limiter)
      then with_provider name (set_health rate_limited) s'
      else with_provider name (checked probe)
          (probe.during (with_provider name (set_health checking) s'))

  unfoldable pub check_names : (String → Probe F) → List String → Shared F → Shared F
  unfolding check_one
  check_names probes [] s = s
  check_names probes (n ∷ ns) s = check_names probes ns (check_one (probes n) n s)

  -- _check_all_once: the list of providers is taken before the first probe.
  unfoldable pub check_all_once : (String → Probe F) → Shared F → Shared F
  unfolding check_names
  check_all_once probes s = check_names probes (names s.registry.providers) s
