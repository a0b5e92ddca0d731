-- ===== src/ProviderRegistry/Tests.antt =====
-- The theorems on app/providers/registry.py at concrete inputs.
use noxis_api_provider.Prelude.{◌≡◌, refl, true, false, none, some, [], ◌∷◌, All}
use noxis_api_provider.ProviderRegistry.{ProviderRegistry}
use noxis_api_provider.ProviderRegistry.Build.{Settings, Switch, named}
use noxis_api_provider.ProviderRegistry.Startup.{YamlFile, entries, start, from_keys}
use noxis_api_provider.ProviderRegistry.Keyless.{OnSome, IsStarted, start-IsStarted}

abbrev off : Switch
off = record { enabled = false; base_url = "" }

abbrev settings : Settings
settings = record {
  pollinations = record { enabled = true; base_url = "https://text.pollinations.ai" };
  keylessai = off;
  llm7 = off;
  devtoolbox = off;
  inferenceport = off;
}

abbrev yaml : YamlFile
yaml = entries (
    record {
      name = some "local";
      type_ = some "keyless";
      base_url = some "http://localhost:9";
      enabled = none;
      priority = none;
      models = named "small" ∷ [];
      supports_streaming = none;
      supports_tools = none;
      supports_vision = none;
    }
    ∷ [])

start-IsStarted_example :
    OnSome
      (λ (r : ProviderRegistry). All IsStarted r.providers)
      (start settings yaml (λ name. some 200) (λ name. some "a" ∷ none ∷ []))
start-IsStarted_example =
    start-IsStarted settings yaml (λ name. some 200) (λ name. some "a" ∷ none ∷ [])

-- The first of each model name is kept.
from_keys-twice : from_keys [] ("a" ∷ "b" ∷ "a" ∷ []) ≡ "a" ∷ "b" ∷ []
unfolding from_keys
from_keys-twice = refl
