-- ===== src/Lib.antt =====
-- NOXIS, an OpenAI-compatible gateway in front of several upstream providers, in Python.
--
-- A request of a client is authenticated (app/core/security.py) and counted against the client's rate
-- (app/core/rate_limiter.py) by a dependency of the endpoints (app/api/deps.py). The chat endpoint
-- (app/api/chat.py) takes a permit, answers from the cache (app/core/cache.py) if it can, and otherwise
-- hands the request to the scheduler (app/core/scheduler.py), normalizes the answer, counts it and writes
-- a usage row. The scheduler asks the router (app/core/router.py) for the providers that may serve it,
-- best first, asks the circuit breaker (app/core/failover.py) of each whether it may be tried, and tries
-- them in turn through the adapter (app/providers/openai_compatible.py) until one answers. Each try takes
-- a slot of the provider in the rate limiter, and gives it back.
--
-- The files, and what each models:
--   Prelude, Dict, Sort    Python's lists, dicts and stable sort, over native numbers
--   Float                  Python's floats as a record of operations
--   Json, Schemas          JSON values; the request of app/models/schemas.py, how it is read from a body
--                          (Parse), and what is sent for it (Dump)
--   Provider               app/providers/base.py: the data and the runtime state of a provider
--   RateLimiter            app/core/rate_limiter.py, ProviderUsageWindow and RateLimiter
--   GatewayRateLimiter     app/core/rate_limiter.py, GatewayRateLimiter
--   CircuitBreaker         app/core/failover.py: the breaker's three calls, and backoff_delay
--   ProviderRegistry       app/providers/registry.py: accessors and switches; Build and Startup hold the
--                          construction, and the passes of app/main.py at the start
--   ModelRegistry          app/models/registry.py: the aliases, the candidates for a model, and
--                          the model list
--   Eligibility, Scoring,  app/core/router.py: the filter loop of rank, the sub-scores, and rank
--   Router                 itself
--   Adapter                app/providers/openai_compatible.py: requests, answers and errors
--   Scheduler              app/core/scheduler.py, execute
--   Streaming              stream_completion of the adapter and execute_stream of the scheduler
--   HealthMonitor          app/core/health_monitor.py: one pass over the providers, and in Loop
--                          the task that repeats it
--   Cache, CacheKey        app/core/cache.py: the cache in memory, the one in Redis, and the key
--   Chat                   app/api/chat.py: Normalize holds what is made of the upstream's answer, State the
--                          semaphore, gauge, cache, rows and counters, Sync and Events the two ways to
--                          answer; Chat itself the endpoint, and Tasks the requests that run side by
--                          side
--   Config, App            app/config.py, the settings and their lists; app/main.py, lifespan, and
--                          in Http the middleware and the exception handlers
--   Deps, Api              app/api/deps.py; the other endpoints of app/api, and in Completions the
--                          call of the chat endpoint as a whole
--   Logging                app/utils/logging.py: redact, its patterns, and the dict of a log line
--   Security               app/core/security.py: keys and the guard on URLs; require_master of
--                          app/api/admin.py
--   Errors, Ids, Usage     app/utils/errors.py and ids.py; the summary of app/core/usage.py
--   Samples                inputs that the tests share
-- A component's operations keep the source's names; its child modules hold lemmas, named for what they
-- prove, and its tests.
--
-- How the program is rendered:
--   - An object that is changed in place is a record that each operation takes and returns. A reference to
--     a provider is its name, which the registry resolves; no operation renames a provider.
--   - Times and durations are whole microseconds, natural numbers. An operation takes the values of the
--     clock that it reads; one call that awaits nothing reads one value, where the source reads the clock
--     several times. Theorems on histories say when they need the clock not to go back.
--   - Retry-After is an integer that may be negative; float() of the header is a parameter.
--   - The scores are floats, which are a record of operations without laws; an instance in thousandths
--     evaluates them in the tests. No law of floats is assumed anywhere.
--   - The scheduler awaits upstreams and sleeps. What other tasks do meanwhile is a function on the shared
--     state, one for each await, and the answers of the upstreams are functions of the request sent.
--   - Loops are structural recursion on the lists that they run over: nothing here needs fuel.
--   - Exceptions are values: Outcome for a provider's call, Verdict and StreamVerdict for the scheduler's,
--     Result for an endpoint's, and Option where a value of an upstream has not the type that is expected.
--
-- Not modelled: HTTP, Redis, the database, hashing, URL parsing and the resolver, which are third-party or
-- Python's own, and parameters where a definition uses them, as are the checks that pydantic makes of a
-- number; the printing of metrics and logs; how the settings are read; CORS and the routing, which are the
-- framework's. The discovery of models takes ids that are texts or missing. One request to the chat
-- endpoint meets a semaphore without a size, since when a permit is free is what the other tasks leave;
-- Chat.Tasks has the size, and the tasks with no more than their waits. Cancellation of a call without a
-- stream is in Chat.Tasks only.
pub mod Prelude
pub mod Dict
pub mod Float
pub mod Sort
pub mod Json
pub mod Schemas
pub mod Provider
pub mod RateLimiter
pub mod GatewayRateLimiter
pub mod CircuitBreaker
pub mod ProviderRegistry
pub mod ModelRegistry
pub mod Eligibility
pub mod Scoring
pub mod Router
pub mod Adapter
pub mod Scheduler
pub mod HealthMonitor
pub mod Cache
pub mod Security
pub mod Streaming
pub mod Errors
pub mod Ids
pub mod Usage
pub mod Config
pub mod Deps
pub mod Logging
pub mod App
pub mod Api
pub mod CacheKey
pub mod Chat
pub mod Samples
