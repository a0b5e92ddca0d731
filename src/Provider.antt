-- ===== src/Provider.antt =====
-- app/providers/base.py: the provider interface, its data and its runtime state. Times and
-- durations are whole microseconds.
pub mod Names
use Prim.Native.String.{◌++◌}
use noxis_api_provider.Prelude.{
  ℕ, String, Bool, true, false, ◌&&◌, not, Option, none, some, List, [], ◌∷◌, any, ℤ, str_eq,
  if◌then◌else◌,
}
use noxis_api_provider.Dict
use noxis_api_provider.Dict.{Dict}
use noxis_api_provider.Json.{Json}

abbrev pub second : ℕ
second = 1_000_000

pub data ProviderType : Type 0 where
  keyless api_key oauth custom : ProviderType

pub data ProviderHealth : Type 0 where
  unknown checking healthy rate_limited cooldown unavailable circuit_open : ProviderHealth

pub data CircuitState : Type 0 where
  closed open_ half_open : CircuitState

pub record ModelSpec : Type 0 where
  pub name : String
  pub context_length : ℕ
  pub supports_streaming : Bool
  pub supports_tools : Bool
  pub supports_vision : Bool

-- ModelSpec(name=m)
unfoldable pub model_named : String → ModelSpec
model_named m = record {
  name = m;
  context_length = 8192;
  supports_streaming = true;
  supports_tools = false;
  supports_vision = false;
}

pub record RateLimitConfig : Type 0 where
  pub requests_per_minute : Option ℕ
  pub requests_per_day : Option ℕ
  pub max_concurrency : ℕ

-- RateLimitConfig()
abbrev pub default_rate_limit : RateLimitConfig
default_rate_limit = record {
  requests_per_minute = none;
  requests_per_day = none;
  max_concurrency = 10;
}

pub record ProviderConfig : Type 0 where
  pub name : String
  pub provider_type : ProviderType
  pub base_url : String
  pub api_key : Option String
  pub enabled : Bool
  pub priority : ℤ
  pub models : List ModelSpec
  pub requires_api_key : Bool
  pub supports_streaming : Bool
  pub supports_tools : Bool
  pub supports_vision : Bool
  pub timeout_seconds : ℕ
  pub rate_limit : RateLimitConfig
  pub chat_path : String
  pub models_path : String
  pub extra_headers : Dict String

-- Latencies are in whole microseconds; where the source has a float of milliseconds, they are divided.
pub record ProviderResult : Type 0 where
  pub raw : Json
  pub latency_ms : ℕ
  pub provider_name : String

-- `retry_after` may be negative: it is read from a header of the upstream.
pub record ProviderApiError : Type 0 where
  pub status_code : ℕ
  pub message : String
  pub retryable : Bool
  pub retry_after : Option ℤ

abbrev pub transient_status_codes : List ℕ
transient_status_codes = 429 ∷ 500 ∷ 502 ∷ 503 ∷ 504 ∷ []

abbrev pub terminal_provider_status_codes : List ℕ
terminal_provider_status_codes = 401 ∷ 402 ∷ 403 ∷ 404 ∷ []

-- The HTTP client of a provider is not part of its state.
pub record Provider : Type 0 where
  pub config : ProviderConfig
  pub name : String
  pub provider_type : ProviderType
  pub requires_api_key : Bool
  pub health : ProviderHealth
  pub circuit_state : CircuitState
  pub consecutive_failures : ℕ
  pub cooldown_until : ℕ
  pub last_checked : ℕ
  pub half_open_calls_in_flight : ℕ

-- Provider.__init__
unfoldable pub new_provider : ProviderConfig → Provider
new_provider c = record {
  config = c;
  name = c.name;
  provider_type = c.provider_type;
  requires_api_key = c.requires_api_key;
  health = unknown;
  circuit_state = closed;
  consecutive_failures = 0;
  cooldown_until = 0;
  last_checked = 0;
  half_open_calls_in_flight = 0;
}

abbrev pub is_empty {ℓ} : {A : Type ℓ} → List A → Bool
is_empty [] = true
is_empty (x ∷ xs) = false

unfoldable pub supports_model : Provider → String → Bool
supports_model p model =
    if is_empty p.config.models then true else any (λ m. str_eq m.name model) p.config.models

-- The loop of `model_spec`: the first model of that name.
unfoldable pub find_spec : String → List ModelSpec → Option ModelSpec
find_spec model [] = none
find_spec model (m ∷ ms) = if str_eq m.name model then some m else find_spec model ms

unfoldable pub model_spec : Provider → String → Option ModelSpec
unfolding find_spec
model_spec p model = find_spec model p.config.models

-- Python's truth of an optional text.
abbrev pub has_text : Option String → Bool
has_text none = false
has_text (some s) = not (str_eq s "")

abbrev pub bearer : Option String → String
bearer none = "Bearer None"
bearer (some key) = "Bearer " ++ key

unfoldable pub auth_headers : Provider → Dict String
unfolding Dict.set
auth_headers p =
    let headers = p.config.extra_headers in
    if p.config.requires_api_key && has_text p.config.api_key
    then Dict.set "Authorization" (bearer p.config.api_key) headers
    else headers

-- `p.health == h` and the like, on the enumerations.
unfoldable pub is_keyless : ProviderType → Bool
is_keyless keyless = true
is_keyless _ = false

unfoldable pub is_api_key : ProviderType → Bool
is_api_key api_key = true
is_api_key _ = false

-- The providers as the registry's dict holds them; a reference to one is its name.
unfoldable pub find : String → List Provider → Option Provider
find name [] = none
find name (p ∷ ps) = if str_eq p.name name then some p else find name ps

-- A write through a reference.
unfoldable pub update : String → (Provider → Provider) → List Provider → List Provider
update name f [] = []
update name f (p ∷ ps) = if str_eq p.name name then f p ∷ ps else p ∷ update name f ps
