-- ===== src/Config.antt =====
-- app/config.py: the settings, and the two lists made of them. Lengths of
-- time are in whole microseconds. The environment is read by pydantic.
pub mod Keys
pub mod Once
pub mod Tests
use Prim.Native.Char.{Char}
use noxis_api_provider.Prelude.{
  ℕ, String, Bool, not, Option, none, some, List, [], ◌∷◌, ◌++◌, map, keep, str_eq, if◌then◌else◌,
}
use noxis_api_provider.ProviderRegistry.Build as Build

-- ENVIRONMENT and CACHE_BACKEND
pub data Environment : Type 0 where
  development production : Environment

pub data CacheBackend : Type 0 where
  memory redis : CacheBackend

-- The providers that take an API key: the key and X_ENABLED of each. No code reads them.
pub record Credential : Type 0 where
  pub api_key : Option String
  pub enabled : Bool

pub record Credentials : Type 0 where
  pub groq : Credential
  pub cerebras : Credential
  pub openrouter : Credential
  pub mistral : Credential
  pub gemini : Credential
  pub deepseek : Credential
  pub nvidia : Credential
  pub cohere : Credential
  pub github_models : Credential
  pub huggingface : Credential

-- `keyless` holds the switches of the keyless providers, X_ENABLED and X_BASE_URL.
pub record Settings : Type 0 where
  pub app_name : String
  pub app_version : String
  pub port : ℕ
  pub environment : Environment
  pub log_level : String
  pub log_json : Bool
  pub noxis_master_key : Option String
  pub noxis_gateway_keys : String
  pub allow_unauthenticated : Bool
  pub database_url : String
  pub redis_url : Option String
  pub cache_enabled : Bool
  pub cache_ttl : ℕ
  pub cache_backend : CacheBackend
  pub connect_timeout : ℕ
  pub read_timeout : ℕ
  pub write_timeout : ℕ
  pub total_timeout : ℕ
  pub max_connections : ℕ
  pub max_keepalive_connections : ℕ
  pub max_request_bytes : ℕ
  pub max_tokens_ceiling : ℕ
  pub gateway_rate_limit_per_min : ℕ
  pub gateway_max_concurrency : ℕ
  pub max_retries : ℕ
  pub backoff_base_seconds : ℕ
  pub backoff_max_seconds : ℕ
  pub circuit_failure_threshold : ℕ
  pub circuit_cooldown_seconds : ℕ
  pub circuit_half_open_max_calls : ℕ
  pub cors_allow_origins : String
  pub providers_config_path : String
  pub credentials : Credentials
  pub keyless : Build.Settings

-- text.split(","); a character before the first comma belongs to the first piece.
unfoldable pub push : Char → List String → List String
push c [] = []
push c (p ∷ ps) = String.◌∷◌ c p ∷ ps

unfoldable pub split_commas : String → List String
unfolding push
split_commas String.[] = "" ∷ []
split_commas (String.◌∷◌ c s) =
    let rest = split_commas s in if str_eq (String.◌∷◌ c "") "," then "" ∷ rest else push c rest

-- [k.strip() for k in text.split(",") if k.strip()]
unfoldable pub pieces : (String → String) → String → List String
unfolding split_commas
pieces strip text = keep (λ k. not (str_eq k "")) (map strip (split_commas text))

-- A key of None or "" is no key.
unfoldable pub key_if_set : Option String → List String
key_if_set none = []
key_if_set (some key) = if str_eq key "" then [] else key ∷ []

unfoldable pub gateway_keys : (String → String) → Settings → List String
unfolding pieces key_if_set
gateway_keys strip s = pieces strip s.noxis_gateway_keys ++ key_if_set s.noxis_master_key

unfoldable pub cors_origins : (String → String) → Settings → List String
unfolding pieces
cors_origins strip s =
    if str_eq (strip s.cors_allow_origins) "*" then "*" ∷ [] else pieces strip s.cors_allow_origins

-- lru_cache: `kept` is the result of an earlier call, `environment` what Settings() makes of the environment
-- of this one. The second value is what is kept from now on.
unfoldable pub get_settings :
    (environment : Settings) (kept : Option Settings) → Settings × Option Settings
get_settings environment none = (environment, some environment)
get_settings environment (some s) = (s, some s)
