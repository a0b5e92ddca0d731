-- ===== src/ProviderRegistry/Build.antt =====
-- app/providers/registry.py, the construction of the registry. An exception that leaves `build` is
-- `none`. The settings and the file that `yaml.safe_load` has read are arguments.
use noxis_api_provider.Prelude.{
  String, Bool, true, false, ◌||◌, not, Option, none, some, List, [], ◌∷◌, map, ℤ, pos, str_eq,
  if◌then◌else◌,
}
use noxis_api_provider.Provider.{
  Provider, ProviderType, keyless, api_key, oauth, custom, ProviderConfig, ModelSpec,
  default_rate_limit, model_named, new_provider,
}

-- An entry of _BUILTIN_KEYLESS_PROVIDERS; the URL that counts is that of the settings.
pub record KeylessSpec : Type 0 where
  pub name : String
  pub priority : ℤ
  pub chat_path : String
  pub models_path : String
  pub models : List String

-- The settings of one provider: X_ENABLED and X_BASE_URL.
pub record Switch : Type 0 where
  pub enabled : Bool
  pub base_url : String

pub record Settings : Type 0 where
  pub pollinations : Switch
  pub keylessai : Switch
  pub llm7 : Switch
  pub devtoolbox : Switch
  pub inferenceport : Switch

-- The entries of _BUILTIN_KEYLESS_PROVIDERS, each with its entry of `enabled_map`.
unfoldable pub builtin_keyless_providers : Settings → List (KeylessSpec × Switch)
builtin_keyless_providers s =
    (
      record {
        name = "pollinations";
        priority = pos 10;
        chat_path = "/openai";
        models_path = "/models";
        models = [];
      },
      s.pollinations,
    )
    ∷ (
      record {
        name = "keylessai";
        priority = pos 20;
        chat_path = "/chat/completions";
        models_path = "/models";
        models = [];
      },
      s.keylessai,
    )
    ∷ (
      record {
        name = "llm7";
        priority = pos 30;
        chat_path = "/chat/completions";
        models_path = "/models";
        models = [];
      },
      s.llm7,
    )
    ∷ (
      record {
        name = "devtoolbox";
        priority = pos 40;
        chat_path = "/chat/completions";
        models_path = "/models";
        models = [];
      },
      s.devtoolbox,
    )
    ∷ (
      record {
        name = "inferenceport";
        priority = pos 50;
        chat_path = "/chat/completions";
        models_path = "/models";
        models = [];
      },
      s.inferenceport,
    )
    ∷ []

unfoldable pub keyless_config : KeylessSpec → String → ProviderConfig
keyless_config spec url = record {
  name = spec.name;
  provider_type = keyless;
  base_url = url;
  api_key = none;
  enabled = true;
  priority = spec.priority;
  models = map model_named spec.models;
  requires_api_key = false;
  supports_streaming = true;
  supports_tools = false;
  supports_vision = false;
  timeout_seconds = 60_000_000;
  rate_limit = record {
    requests_per_minute = some 20;
    requests_per_day = none;
    max_concurrency = 5;
  };
  chat_path = spec.chat_path;
  models_path = spec.models_path;
  extra_headers = [];
}

-- self.providers[name] = provider
unfoldable pub put : Provider → List Provider → List Provider
put p [] = p ∷ []
put p (q ∷ qs) = if str_eq q.name p.name then p ∷ qs else q ∷ put p qs

unfoldable pub build_keyless_providers : List (KeylessSpec × Switch) → List Provider → List Provider
unfolding put
build_keyless_providers [] ps = ps
build_keyless_providers ((spec, switch) ∷ rest) ps = build_keyless_providers rest (
    if not switch.enabled || str_eq switch.base_url ""
    then ps
    else put (new_provider (keyless_config spec switch.base_url)) ps)

-- A model of a YAML entry: a name, a mapping that ModelSpec takes, or one that it refuses.
pub data YamlModel : Type 0 where
  named : String → YamlModel
  spec : ModelSpec → YamlModel
  refused : YamlModel

-- An entry of providers.yaml; `none` is a missing key. Its values have the types that the code expects.
pub record YamlEntry : Type 0 where
  pub name : Option String
  pub type_ : Option String
  pub base_url : Option String
  pub enabled : Option Bool
  pub priority : Option ℤ
  pub models : List YamlModel
  pub supports_streaming : Option Bool
  pub supports_tools : Option Bool
  pub supports_vision : Option Bool

-- entry.get(key, default)
abbrev pub default {ℓ} : {A : Type ℓ} → Option A → A → A
default none d = d
default (some a) d = a

-- ProviderType(text); `none` is the ValueError.
unfoldable pub provider_type_of : String → Option ProviderType
provider_type_of s =
    if str_eq s "keyless"
    then some keyless
    else if str_eq s "api_key"
    then some api_key
    else if str_eq s "oauth"
    then some oauth
    else if str_eq s "custom"
    then some custom
    else none

unfoldable pub yaml_models : List YamlModel → Option (List ModelSpec)
yaml_models [] = some []
yaml_models (named m ∷ ms) = elim (yaml_models ms) [
  | none ↦ none
  | some rest ↦ some (model_named m ∷ rest)
]
yaml_models (spec m ∷ ms) = elim (yaml_models ms) [ none ↦ none | some rest ↦ some (m ∷ rest) ]
yaml_models (refused ∷ ms) = none

-- The configuration of an entry; `api_key_env` is None there, so that no key is read.
unfoldable pub yaml_config :
    YamlEntry → String → ProviderType → String → List ModelSpec → ProviderConfig
yaml_config e name ptype url models = record {
  name = name;
  provider_type = ptype;
  base_url = url;
  api_key = none;
  enabled = default e.enabled true;
  priority = default e.priority (pos 50);
  models = models;
  requires_api_key = false;
  supports_streaming = default e.supports_streaming true;
  supports_tools = default e.supports_tools false;
  supports_vision = default e.supports_vision false;
  timeout_seconds = 60_000_000;
  rate_limit = default_rate_limit;
  chat_path = "/chat/completions";
  models_path = "/models";
  extra_headers = [];
}
