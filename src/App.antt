-- ===== src/App.antt =====
-- app/main.py: what the start of the application, `lifespan`, puts into `app.state`, and the answers of
-- the exception handlers. The HTTP client and the database are opened by libraries.
pub mod Http
pub mod Headers
pub mod Entry
pub mod Tests
use noxis_api_provider.Prelude.{
  ℕ, String, Bool, true, false, ◌&&◌, Option, none, some, List, [], ◌>>=◌, if◌then◌else◌,
}
use noxis_api_provider.Dict.{Dict}
use noxis_api_provider.Provider.{has_text}
use noxis_api_provider.ProviderRegistry.{ProviderRegistry}
use noxis_api_provider.ProviderRegistry.Startup.{YamlFile, start}
use noxis_api_provider.Scheduler.{Shared, Scheduler}
use noxis_api_provider.Cache.{Redis, AnyCache, in_memory, in_redis, new_cache}
use noxis_api_provider.Usage.{UsageRecord}
use noxis_api_provider.Chat.State.{Desk}
use noxis_api_provider.Chat.Exchange.{Limits}
use noxis_api_provider.Security.{Text, KeyAuthenticator, authenticator}
use noxis_api_provider.GatewayRateLimiter.{GatewayRateLimiter}
use noxis_api_provider.Config.{Settings, CacheBackend, gateway_keys}

-- A row of audit_log, without its id and time; its details are the name of a provider.
pub record AuditLogRecord : Type 0 where
  pub actor_key_id : String
  pub action : String
  pub details : Dict String

-- app.state; `desk` is the cache, the usage rows, the taken permits and the metrics, `permits` the size
-- of the semaphore.
pub record App {ℓ} (F : Type ℓ) (C : Type 0) : Type ℓ where
  pub settings : Settings
  pub shared : Shared F
  pub scheduler : Scheduler
  pub desk : Desk F C
  pub audits : List AuditLogRecord
  pub authenticator : KeyAuthenticator
  pub gateway_limiter : GatewayRateLimiter
  pub permits : ℕ

unfoldable pub is_redis : CacheBackend → Bool
is_redis CacheBackend.memory = false
is_redis CacheBackend.redis = true

-- None is taken as no text.
abbrev pub text_of : Option String → String
text_of none = ""
text_of (some s) = s

-- Whether the cache is to be in Redis.
unfoldable pub uses_redis : Settings → Bool
unfolding is_redis
uses_redis s = s.cache_enabled && is_redis s.cache_backend && has_text s.redis_url

-- Scheduler(...), with its CircuitBreaker(...)
unfoldable pub new_scheduler : Settings → Scheduler
new_scheduler s = record {
  breaker = record {
    failure_threshold = s.circuit_failure_threshold;
    cooldown_seconds = s.circuit_cooldown_seconds;
    half_open_max_calls = s.circuit_half_open_max_calls;
  };
  max_retries = s.max_retries;
  backoff_base = s.backoff_base_seconds;
  backoff_cap = s.backoff_max_seconds;
}

-- The settings that the chat endpoint reads.
unfoldable pub limits_of : Settings → Limits
limits_of s = record {
  max_request_bytes = s.max_request_bytes;
  max_tokens_ceiling = s.max_tokens_ceiling;
  cache_enabled = s.cache_enabled;
}

module _ (redis : Redis) (from_url : String → redis.State) where
  -- The cache: in Redis where that is asked for and a URL is given, else in memory, also if it is off.
  unfoldable pub new_any_cache : Settings → AnyCache redis
  unfolding uses_redis new_cache
  new_any_cache s =
      if uses_redis s
      then in_redis s.cache_ttl (from_url (text_of s.redis_url))
      else in_memory (new_cache s.cache_ttl)

module _ {ℓ} {F : Type ℓ} (py : Text) (redis : Redis) (from_url : String → redis.State) where
  -- What is put into `app.state` around a registry that has been built; the usage rows and the audit log
  -- are those of the database.
  unfoldable pub new_app :
      Settings
      → List (UsageRecord F)
      → List AuditLogRecord
      → ProviderRegistry
      → App F (AnyCache redis)
  unfolding new_scheduler authenticator gateway_keys new_any_cache
  new_app s rows audits registry = record {
    settings = s;
    shared = record { registry = registry; limiter = []; latency_stats = [] };
    scheduler = new_scheduler s;
    desk = record {
      active = 0;
      held = 0;
      cache = new_any_cache redis from_url s;
      rows = rows;
      metrics = [];
    };
    audits = audits;
    authenticator = authenticator py (gateway_keys py.strip s);
    gateway_limiter = record { rpm = s.gateway_rate_limit_per_min; hits = [] };
    permits = s.gateway_max_concurrency;
  }

  -- `none` where the registry refuses to be built; the probes and the lists of models are the answers of
  -- the upstreams. The first pass of the health monitor is not part of it.
  unfoldable pub lifespan :
      Settings
      → YamlFile
      → (String → Option ℕ)
      → (String → List (Option String))
      → List (UsageRecord F)
      → List AuditLogRecord
      → Option (App F (AnyCache redis))
  unfolding new_app
  lifespan s file probe fetch rows audits = do
    registry ← start s.keyless file probe fetch
    some (new_app s rows audits registry)
