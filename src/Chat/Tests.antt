-- ===== src/Chat/Tests.antt =====
-- The theorems on app/api/chat.py at concrete inputs: the providers of Samples, no other task running.
use mathlib.Core.List.{append-nil}
use noxis_api_provider.Prelude.{
  sym, List, Bool, map, length, ◌++◌, ◌≡◌, refl, arith, false, true, none, some, [], ◌∷◌, pos,
}
use noxis_api_provider.Float.Milli.{Milli, milli_float}
use noxis_api_provider.Json.{Json, Fields}
use noxis_api_provider.Cache.{InMemoryCache, new_cache, memory_cache}
use noxis_api_provider.Cache.Lookup.{memory-Serves}
use noxis_api_provider.Adapter.{Python}
use noxis_api_provider.Chat.State.{Desk}
use noxis_api_provider.Schemas.{ChatCompletionRequest, Content, assistant}
use noxis_api_provider.CacheKey.{relevant}
use noxis_api_provider.Chat.Normalize.{ChatCompletionResponse}
use noxis_api_provider.Chat.Exchange.{Answer, Limits, Library, World, completion}
use noxis_api_provider.Chat.Sync.{look_up, sync_response}
use noxis_api_provider.Streaming.{execute_stream}
use noxis_api_provider.Chat.{chat_completions, stream_response}
use noxis_api_provider.Chat.Normalize.{ChatCompletionChunk}
use noxis_api_provider.Chat.Exchange.{Event, chunk, stream}
use noxis_api_provider.Chat.Logged.{OnlyAdds, Logged, sync_response-Logged}
use noxis_api_provider.Chat.Endings.{Ending, stream_response-Ending}
use noxis_api_provider.Streaming.Tests.{broken_off}
use noxis_api_provider.Chat.Caching.{Reused, sync_response-repeated}
use noxis_api_provider.Scheduler
use noxis_api_provider.Router
use noxis_api_provider.CircuitBreaker
use noxis_api_provider.RateLimiter
use noxis_api_provider.Adapter
use noxis_api_provider.Provider
use noxis_api_provider.Eligibility
use noxis_api_provider.Scoring
use noxis_api_provider.Sort
use noxis_api_provider.ModelRegistry
use noxis_api_provider.ProviderRegistry
use noxis_api_provider.Cache
use noxis_api_provider.CacheKey
use noxis_api_provider.Json
use noxis_api_provider.Dict
use noxis_api_provider.Chat.Sync
use noxis_api_provider.Chat.State
use noxis_api_provider.Chat.Normalize
use noxis_api_provider.Samples
use noxis_api_provider.Samples.{highest_draw, scheduler, request, shared, desk}

abbrev response : ChatCompletionResponse
response = record {
  id = "chatcmpl-1";
  created = pos 0;
  model = "gpt-4";
  choices =
      record {
        index = pos 0;
        message = record {
          role = assistant;
          content = some (Content.text "");
          name = none;
          tool_calls = none;
          tool_call_id = none;
        };
        finish_reason = some "stop";
      }
      ∷ [];
  usage = record { prompt_tokens = pos 0; completion_tokens = pos 0; total_tokens = pos 0 };
  noxis_provider = some "llm7";
}

abbrev pub library : Library
library = record {
  values = record { as_int = λ j. some (pos 0); is_zero = λ s. false };
  digest = λ x. x.model;
  dump = λ x. Json.str x.id;
  load = λ j. some response;
  printed_length = λ j. 80;
}

abbrev pub python : Python
python = record Samples.python { loads = λ s. some (Json.obj Fields.end) }

abbrev world : World Milli InMemoryCache
world = record {
  request_id = "req-1";
  new_id = "chatcmpl-1";
  created = pos 0;
  looked_at = 4;
  called_at = 5;
  written_at = 6;
  stored_at = 7;
  rounds = Samples.world;
  waiting = λ d. d;
  meanwhile = λ d. d;
  writing = λ d. d;
  reads = none;
}

abbrev first : Answer Milli InMemoryCache
first = sync_response library python highest_draw scheduler world true "k" request shared desk

misses : (look_up library true 4 request desk).0 ≡ some none
unfolding Sync.look_up Cache.lookup Dict.get Cache.new_cache
misses = refl

-- What the first request leaves in the cache.
abbrev full : Desk Milli InMemoryCache
full = record desk {
  cache = record { ttl = 300; store = ("gpt-4", (307, Json.str "chatcmpl-1")) ∷ [] };
}

answers : (first.reply ≡ completion response) × (full.cache ≡ first.desk.cache)
unfolding Scheduler.with_provider Scheduler.with_limiter Scheduler.allowed Scheduler.on_failure
    Scheduler.eligible_decisions Scheduler.on_success Scheduler.exchange Scheduler.after_failure
    Scheduler.after_success Scheduler.awaited Scheduler.attempt_all Scheduler.execute Router.decide
    Router.decisions Router.by_score Router.rank Router.observe_latency
    CircuitBreaker.allow_half_open CircuitBreaker.allow_in CircuitBreaker.allow_request
    CircuitBreaker.record_success CircuitBreaker.trip CircuitBreaker.count_failure
    CircuitBreaker.record_failure CircuitBreaker.backoff_delay RateLimiter.trim_hits
    RateLimiter.trim RateLimiter.record_request RateLimiter.window_record_failure
    RateLimiter.requests_last_minute RateLimiter.requests_last_day RateLimiter.is_rate_limited
    RateLimiter.seconds_until_available RateLimiter.window RateLimiter.with_window
    RateLimiter.within RateLimiter.window_can_serve RateLimiter.can_serve RateLimiter.acquire
    RateLimiter.release RateLimiter.record_failure RateLimiter.window_snapshot RateLimiter.snapshot
    Adapter.rstrip_slash Adapter.take_chars Adapter.request_payload Adapter.merge
    Adapter.post_request Adapter.is_retryable Adapter.status_error Adapter.transport_error
    Adapter.result_of Adapter.chat_completion Provider.model_named Provider.new_provider
    Provider.supports_model Provider.find_spec Provider.model_spec Provider.auth_headers
    Provider.is_keyless Provider.is_api_key Provider.find Provider.update Eligibility.content_chars
    Eligibility.total_chars Eligibility.estimate_tokens Eligibility.is_eligible_health
    Eligibility.has_items Eligibility.is_capable Eligibility.first_name
    Eligibility.resolve_model_for_provider Eligibility.is_too_long Eligibility.passes
    Eligibility.is_eligible Eligibility.eligible Scoring.lowest Scoring.highest Scoring.health_score
    Scoring.priority_score Scoring.latency_score Scoring.reliability_of Scoring.headroom
    Scoring.sum_from Scoring.mean Scoring.quota_of Scoring.weigh Scoring.score Sort.insert Sort.sort
    ModelRegistry.is_alias ModelRegistry.by_priority ModelRegistry.candidate_providers_for_model
    ProviderRegistry.get ProviderRegistry.is_admin_disabled ProviderRegistry.enabled
    ProviderRegistry.discard ProviderRegistry.add ProviderRegistry.is_known
    ProviderRegistry.set_enabled Cache.new_cache Cache.lookup Cache.store_value CacheKey.relevant
    CacheKey.build_cache_key Json.to_list Json.get Json.as_dict Json.get_or Json.iterate
    Json.is_truthy Dict.get Dict.get_or Dict.set Dict.pop Dict.contains Sync.hit Sync.look_up
    Sync.store Sync.success_row Sync.plain_row Sync.book Sync.after_served Sync.after_execute
    Sync.ask Sync.finish Sync.after_look_up Sync.sync_response State.measure State.write_row
    Normalize.as_str Normalize.choices_from Normalize.usage_of Normalize.or_default
    Normalize.normalize_chat_response
answers = (refl, refl)

abbrev later : World Milli InMemoryCache
later = record world { looked_at = 200 }

abbrev two_choices : ChatCompletionRequest
two_choices = record request { n = some 2 }

same : relevant two_choices ≡ relevant request
unfolding relevant
same = refl

sync_response-repeated_example :
    Reused
      (sync_response library python highest_draw scheduler later true "j" two_choices shared full)
      response
      shared
      full
sync_response-repeated_example =
    sync_response-repeated library python highest_draw scheduler world "k" request shared desk
      response later "j" two_choices shared full misses answers.0
      (memory-Serves (Json.str "chatcmpl-1")) refl (λ q. cc) same answers.1 (omega arith)
      (omega arith)

abbrev limits : Limits
limits = record { max_request_bytes = 100; max_tokens_ceiling = 10; cache_enabled = true }

abbrev answered : Answer Milli InMemoryCache
answered =
    chat_completions library python highest_draw scheduler limits world broken_off "k" request
      shared desk

-- A client that reads one event of a stream and goes away.
abbrev goes : World Milli InMemoryCache
goes = record world { reads = some 1 }

stream_response-Ending_example :
    let t = execute_stream python highest_draw scheduler 5 request broken_off shared in
    (cs : List ChatCompletionChunk) × (end : List Event) × (fails : Bool) × ((stream_response
        library python highest_draw scheduler limits goes broken_off "k" request shared desk).reply
      ≡ stream (map chunk cs ++ end) fails)
    × Ending (some 1) (length t.chunks) t.verdict (length cs) end fails
stream_response-Ending_example =
    stream_response-Ending library python highest_draw scheduler limits goes broken_off "k" request
      shared desk

adds_nothing : OnlyAdds world
adds_nothing d = ([], sym (append-nil d.rows))

sync_response-Logged_example : Logged "k" "gpt-4" first.reply first.desk.rows
sync_response-Logged_example =
    sync_response-Logged library world adds_nothing python highest_draw scheduler true "k" request
      shared desk misses
