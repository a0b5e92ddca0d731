-- ===== src/Samples.antt =====
-- Concrete inputs that the tests share.
use noxis_api_provider.Prelude.{
  ◌+◌, ltb, String, Option, false, str_eq, if◌then◌else◌, ℕ, zero, suc, true, none, some, [], ◌∷◌,
  pos,
}
use noxis_api_provider.Json.{Json}
use noxis_api_provider.Schemas.{ChatCompletionRequest, Content, user}
use noxis_api_provider.Provider.{
  Provider, ProviderConfig, keyless, default_rate_limit, new_provider,
}
use noxis_api_provider.ProviderRegistry.{ProviderRegistry}
use noxis_api_provider.ProviderRegistry.Build.{Switch}
use noxis_api_provider.Security.{Text}
use noxis_api_provider.Config.{Settings, Credential, CacheBackend, development}
use noxis_api_provider.Dict
use noxis_api_provider.Dict.{Dict}
use noxis_api_provider.Cache.{InMemoryCache, AnyCache, Redis, new_cache}
use noxis_api_provider.Chat.State.{Desk}
use noxis_api_provider.App.{App, new_app}
use noxis_api_provider.CircuitBreaker.{CircuitBreaker, Random}
use noxis_api_provider.Adapter.{Python, HttpOutcome, timed_out, responded}
use noxis_api_provider.Float.Milli.{Milli, milli_float}
use noxis_api_provider.Scheduler.{Shared, Scheduler, Round}

abbrev pub config : ProviderConfig
config = record {
  name = "pollinations";
  provider_type = keyless;
  base_url = "https://text.pollinations.ai/";
  api_key = none;
  enabled = true;
  priority = pos 10;
  models = [];
  requires_api_key = false;
  supports_streaming = true;
  supports_tools = false;
  supports_vision = false;
  timeout_seconds = 60_000_000;
  rate_limit = default_rate_limit;
  chat_path = "/openai";
  models_path = "/models";
  extra_headers = [];
}

abbrev pub breaker : CircuitBreaker
breaker = record { failure_threshold = 5; cooldown_seconds = 30_000_000; half_open_max_calls = 1 }

abbrev pub provider : Provider
provider = new_provider config

-- A generator that always draws the upper end.
abbrev pub highest_draw : Random
highest_draw = record { uniform = λ lo hi. hi }

abbrev pub other : Provider
other = new_provider (record config { name = "llm7"; priority = pos 30 })

abbrev pub registry : ProviderRegistry
registry = record { providers = provider ∷ other ∷ []; disabled_overrides = [] }

abbrev pub request : ChatCompletionRequest
request = record {
  model = "gpt-4";
  messages =
      record {
        role = user;
        content = some (Content.text "hello");
        name = none;
        tool_calls = none;
        tool_call_id = none;
      }
      ∷ [];
  temperature = none;
  top_p = none;
  n = none;
  stream = false;
  stop = none;
  max_tokens = none;
  presence_penalty = none;
  frequency_penalty = none;
  logit_bias = none;
  user = none;
  tools = none;
  tool_choice = none;
  response_format = none;
  seed = none;
}

abbrev pub python : Python
python = record {
  parse_float = λ s. some (pos 1_000_000);
  show_int = λ n. "500";
  strip = λ s. s;
  loads = λ s. some Json.null;
}

abbrev pub shared : Shared Milli
shared = record { registry = registry; limiter = []; latency_stats = [] }

abbrev pub scheduler : Scheduler
scheduler = record {
  breaker = breaker;
  max_retries = 3;
  backoff_base = 500_000;
  backoff_cap = 8_000_000;
}

-- The first upstream times out, the next ones answer; no other task is running.
abbrev pub answer_in : ℕ → HttpOutcome
answer_in zero = timed_out "read timeout"
answer_in (suc i) = responded (record { status_code = 200; retry_after = none; body = "null" })

abbrev pub world : ℕ → Round Milli
world i = record {
  started = 1_000_000;
  answer = λ q. answer_in i;
  latency = 20;
  elapsed_ms = 20;
  ended = 1_020_000;
  during_call = λ s. s;
  during_sleep = λ delay s. s;
}

abbrev switch_off : Switch
switch_off = record { enabled = false; base_url = "" }

abbrev no_credential : Credential
no_credential = record { api_key = none; enabled = false }

abbrev pub settings : Settings
settings = record {
  app_name = "NOXIS";
  app_version = "1.0.0";
  port = 8000;
  environment = development;
  log_level = "INFO";
  log_json = true;
  noxis_master_key = some "k";
  noxis_gateway_keys = "a,b";
  allow_unauthenticated = false;
  database_url = "sqlite+aiosqlite:///./noxis.db";
  redis_url = none;
  cache_enabled = false;
  cache_ttl = 300_000_000;
  cache_backend = CacheBackend.memory;
  connect_timeout = 5_000_000;
  read_timeout = 60_000_000;
  write_timeout = 10_000_000;
  total_timeout = 90_000_000;
  max_connections = 200;
  max_keepalive_connections = 50;
  max_request_bytes = 2_000_000;
  max_tokens_ceiling = 32_000;
  gateway_rate_limit_per_min = 120;
  gateway_max_concurrency = 100;
  max_retries = 3;
  backoff_base_seconds = 500_000;
  backoff_max_seconds = 8_000_000;
  circuit_failure_threshold = 5;
  circuit_cooldown_seconds = 30_000_000;
  circuit_half_open_max_calls = 1;
  cors_allow_origins = "*";
  providers_config_path = "providers.yaml";
  credentials = record {
    groq = no_credential;
    cerebras = no_credential;
    openrouter = no_credential;
    mistral = no_credential;
    gemini = no_credential;
    deepseek = no_credential;
    nvidia = no_credential;
    cohere = no_credential;
    github_models = no_credential;
    huggingface = no_credential;
  };
  keyless = record {
    pollinations = record { enabled = true; base_url = "https://text.pollinations.ai" };
    keylessai = switch_off;
    llm7 = switch_off;
    devtoolbox = switch_off;
    inferenceport = switch_off;
  };
}

-- A hash that is the identity, and texts without spaces.
abbrev pub plain_text : Text
plain_text = record {
  hash_key = λ s. s;
  lower = λ s. if str_eq s "Bearer k" then "bearer k" else s;
  strip = λ s. s;
}

-- A server that keeps each text with the time when it expires, and texts that stand for themselves.
abbrev server_get : ℕ → String → Dict (ℕ × String) → Option String
server_get now key s = elim (Dict.get key s) [
  | none ↦ none
  | some e ↦ if ltb now e.0 then some e.1 else none
]

abbrev as_text : Json → String
as_text (Json.str s) = s
as_text _ = ""

abbrev pub server : Redis
server = record {
  State = Dict (ℕ × String);
  get = λ now key s. some (server_get now key s);
  set = λ now key text ttl s. (false, Dict.set key (now + ttl, text) s);
  dumps = as_text;
  loads = λ text. some (Json.str text);
}

abbrev pub desk : Desk Milli InMemoryCache
desk = record { active = 0; held = 0; cache = new_cache 300; rows = []; metrics = [] }

abbrev pub app : App Milli (AnyCache server)
app = new_app plain_text server (λ url. []) settings [] [] registry
