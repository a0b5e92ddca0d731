-- ===== src/HealthMonitor/Tests.antt =====
-- The theorem on app/core/health_monitor.py at a concrete input.
use noxis_api_provider.Prelude.{◌≡◌, refl, inl, some, false, List, [], ◌∷◌, arith}
use noxis_api_provider.Provider.{Provider, find, new_provider}
use noxis_api_provider.Float.Milli.{Milli}
use noxis_api_provider.HealthMonitor.{Probe, check_one}
use noxis_api_provider.HealthMonitor.Checked.{verdict, check_one-health}
use noxis_api_provider.HealthMonitor.Loop.{
  in_pass, ended, Monitor, Event, starts, asks_stop, steps, times_out, step, run,
}
use noxis_api_provider.HealthMonitor.Stop.{stop-ends}
use noxis_api_provider.Samples.{shared}

abbrev probe : Probe Milli
probe = record { started = 1; status = some 404; ended = 9; during = λ s. s }

check_one-health_example :
    (p : Provider) × ((find "pollinations"
          (check_one probe "pollinations" shared).registry.providers
        ≡ some p)
      × (p.health ≡ verdict probe "pollinations" shared))
unfolding new_provider
check_one-health_example = check_one-health probe "pollinations" shared (λ t. refl) (inl refl)

-- A task in the middle of a pass.
abbrev busy : Monitor
busy = record { phase = in_pass; stop = false; passes = 1 }

abbrev events : List Event
events = steps ∷ starts ∷ times_out ∷ steps ∷ steps ∷ []

stop-ends_example :
    ((run (step busy asks_stop) events).phase ≡ ended)
    × ((run (step busy asks_stop) events).passes ≡ 1)
stop-ends_example = stop-ends busy events tt tt (omega arith)
