-- ===== src/HealthMonitor/Checked.antt =====
-- What a pass of app/core/health_monitor.py leaves on a provider.
use noxis_api_provider.Prelude.{
  String, ◌≡◌, refl, sym, subst, ◌∙◌, some, In, Bool-cases, inl, inr, if◌then◌else◌,
}
use noxis_api_provider.Dict
use noxis_api_provider.Provider.{
  Provider, ProviderHealth, rate_limited, checking, healthy, unavailable, find,
}
use noxis_api_provider.Provider.Names.{names, names-update, find-names, find-update}
use noxis_api_provider.RateLimiter.{window, is_rate_limited}
use noxis_api_provider.ProviderRegistry.Startup.{health_check}
use noxis_api_provider.Scheduler.{Shared, with_provider, with_limiter}
use noxis_api_provider.HealthMonitor.{Probe, set_health, checked, check_one}

module _ {ℓ} {F : Type ℓ} where
  -- The health that a pass gives a provider.
  abbrev pub verdict : Probe F → String → Shared F → ProviderHealth
  verdict probe name s =
      if is_rate_limited probe.started (window name s.limiter)
      then rate_limited
      else if health_check probe.status
      then healthy
      else unavailable

  -- After its turn a provider of the registry is RATE_LIMITED exactly if its window was, and otherwise
  -- HEALTHY or UNAVAILABLE by the probe alone, never CHECKING, whatever other tasks, that add and remove
  -- no provider, do during the probe.
  pub check_one-health :
      (probe : Probe F) (name : String) (s : Shared F)
      → ((t : Shared F) → names (probe.during t).registry.providers ≡ names t.registry.providers)
      → In name (names s.registry.providers)
      → (p : Provider) × ((find name (check_one probe name s).registry.providers ≡ some p)
          × (p.health ≡ verdict probe name s))
  unfolding check_one with_provider with_limiter
  check_one-health probe name s keeps m =
      elim (Bool-cases (is_rate_limited probe.started (window name s.limiter))) [
        | inl e ↦
            let (p, found) = find-names name s.registry.providers m in
            rw (e, check_one)
              (
                set_health rate_limited p,
                (
                  find-update name (set_health rate_limited) s.registry.providers p (λ q. refl)
                      found,
                  refl,
                ),
              )
        | inr e ↦
            let s' =
              with_provider name (set_health checking)
                (with_limiter (λ rl. Dict.set name (window name rl) rl) s) in
            let there : In name (names (probe.during s').registry.providers) =
              subst (In name)
                (sym (
                  keeps s'
                  ∙ names-update name (set_health checking) s.registry.providers (λ q. refl)))
                m in
            let (p, found) = find-names name (probe.during s').registry.providers there in
            rw (e, check_one)
              (
                checked probe p,
                (
                  find-update name (checked probe) (probe.during s').registry.providers p
                      (λ q. unfold checked in refl) found,
                  unfold checked in refl,
                ),
              )
      ]
