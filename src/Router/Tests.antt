-- ===== src/Router/Tests.antt =====
-- The theorem on the ranking of app/core/router.py at a concrete input, in thousandths.
use mathlib.Core.List.{Perm}
use noxis_api_provider.Prelude.{map, keep, []}
use noxis_api_provider.Float.Milli.{Milli, milli_float}
use noxis_api_provider.Provider.{Provider}
use noxis_api_provider.ModelRegistry.{candidate_providers_for_model}
use noxis_api_provider.Router.{RoutingDecision, rank}
use noxis_api_provider.Router.Ranking.{rank-perm}
use noxis_api_provider.Eligibility.Sound.{is_fit}
use noxis_api_provider.Samples.{registry, request}

rank-perm_example :
    Perm
      (map
        (λ (d : RoutingDecision Milli). d.provider)
        (rank {F = Milli} 5 registry [] request []).0)
      (map
        (λ (p : Provider). p.name)
        (keep (is_fit 5 registry request []) (candidate_providers_for_model registry "gpt-4")))
rank-perm_example = rank-perm {F = Milli} 5 registry [] request []
