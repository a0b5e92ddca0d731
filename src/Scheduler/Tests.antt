-- ===== src/Scheduler/Tests.antt =====
-- The theorems on app/core/scheduler.py at a concrete input: two providers, the first of which times
-- out. Scores are in thousandths.
use noxis_api_provider.Prelude.{ℕ, ◌<◌, ◌≡◌, refl, [], ◌∷◌, arith, zero, suc}
use noxis_api_provider.Float.Milli.{Milli, milli_float}
use noxis_api_provider.Provider.{ProviderResult}
use noxis_api_provider.Router.{RoutingDecision}
use noxis_api_provider.Router.Slots.{in_use}
use noxis_api_provider.Adapter.{chat_completion, status_error, result_of}
use noxis_api_provider.Scheduler.{execute, served}
use noxis_api_provider.Router.{rank, by_score, decisions, decide}
use noxis_api_provider.Sort.{sort, insert}
use noxis_api_provider.Eligibility.{
  eligible, content_chars, estimate_tokens, first_name, has_items, is_capable, is_eligible,
  is_eligible_health, is_too_long, passes, resolve_model_for_provider, total_chars,
}
use noxis_api_provider.ModelRegistry.{candidate_providers_for_model, by_priority, is_alias}
use noxis_api_provider.Provider.{
  new_provider, find, find_spec, is_api_key, is_keyless, model_spec, supports_model, update,
}
use noxis_api_provider.RateLimiter.{
  can_serve, window_can_serve, window, snapshot, window_snapshot, is_rate_limited,
  requests_last_day, requests_last_minute, seconds_until_available, trim, trim_hits, within,
}
use noxis_api_provider.CircuitBreaker.{allow_request, allow_half_open, allow_in}
use noxis_api_provider.ProviderRegistry.{enabled, is_admin_disabled}
use noxis_api_provider.Scheduler.{eligible_decisions, allowed, with_provider}
use noxis_api_provider.Scoring.{
  score, headroom, health_score, highest, latency_score, lowest, mean, priority_score, quota_of,
  reliability_of, sum_from, weigh,
}
use noxis_api_provider.Dict
use noxis_api_provider.Scheduler.Slots.{execute-in_use}
use noxis_api_provider.Scheduler.Failover.{RoundFails, RoundAnswers, execute-served}
use noxis_api_provider.Samples.{python, highest_draw, scheduler, breaker, request, world, shared}

execute-in_use_example :
    in_use (execute python highest_draw scheduler 5 request world shared).state.limiter "llm7"
    ≡ in_use shared.limiter "llm7"
execute-in_use_example =
    execute-in_use python highest_draw scheduler 5 request world shared
      (record { call = λ i s j. refl; sleep = λ i delay s j. refl }) "llm7"

abbrev first : RoutingDecision Milli
first = record { provider = "pollinations"; model = "gpt-4"; score = 685 }

abbrev second : RoutingDecision Milli
second = record { provider = "llm7"; model = "gpt-4"; score = 535 }

ranked : (eligible_decisions {F = Milli} breaker 5 request shared).0 ≡ first ∷ second ∷ []
unfolding rank by_score decisions decide sort insert eligible content_chars estimate_tokens
    first_name has_items is_capable is_eligible is_eligible_health is_too_long passes
    resolve_model_for_provider total_chars candidate_providers_for_model by_priority is_alias
    new_provider find find_spec is_api_key is_keyless model_spec supports_model update can_serve
    window_can_serve window snapshot window_snapshot is_rate_limited requests_last_day
    requests_last_minute seconds_until_available trim trim_hits within allow_request allow_half_open
    allow_in enabled is_admin_disabled eligible_decisions allowed with_provider score headroom
    health_score highest latency_score lowest mean priority_score quota_of reliability_of sum_from
    weigh Dict.get Dict.get_or Dict.set
ranked = refl

times_out : (i : ℕ) → i < 1 → RoundFails python (world i)
unfolding chat_completion
times_out zero h name q = (_, refl)
times_out (suc i) h name q = absurd (omega arith)

answers : RoundAnswers python (world 1)
unfolding chat_completion status_error result_of
answers name q = (_, refl)

execute-served_example :
    (result : ProviderResult) × ((execute python highest_draw scheduler 5 request world
        shared).verdict
      ≡ served result "llm7")
execute-served_example =
    execute-served python highest_draw scheduler 5 request world shared (first ∷ []) second []
      ranked (omega arith) (record { call = λ i s. refl; sleep = λ i delay s. refl }) times_out
      answers
