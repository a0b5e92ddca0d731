-- ===== src/ProviderRegistry/Startup.antt =====
-- app/providers/registry.py: the entries of providers.yaml, `build`, and the two passes over the
-- keyless providers that the start of the application awaits, before any request is served.
use noxis_api_provider.Prelude.{
  String, Bool, true, false, ◌||◌, not, Option, none, some, List, [], ◌∷◌, map, any, str_eq, ltb, ℕ,
  if◌then◌else◌,
}
use noxis_api_provider.Provider.{
  Provider, ProviderType, ProviderHealth, unavailable, healthy, is_keyless, model_named,
  new_provider, is_empty,
}
use noxis_api_provider.ProviderRegistry.{ProviderRegistry}
use noxis_api_provider.ProviderRegistry.Build.{
  Settings, YamlEntry, builtin_keyless_providers, build_keyless_providers, put, default,
  provider_type_of, yaml_models, yaml_config,
}

-- name in self.providers
abbrev pub is_taken : String → List Provider → Bool
is_taken name = any λ p. str_eq p.name name

-- The rest of the round, for an entry of this type: its URL, its models, and whether it is on.
unfoldable pub add_entry :
    YamlEntry → String → ProviderType → List Provider → Option (List Provider)
unfolding put
add_entry e name ptype ps = elim e.base_url [
  | none ↦ none
  | some url ↦ elim (yaml_models e.models) [
    | none ↦ none
    | some models ↦ some (
        if default e.enabled true
        then put (new_provider (yaml_config e name ptype url models)) ps
        else ps)
  ]
]

-- One round of the loop of `_build_from_yaml`.
unfoldable pub build_entry : YamlEntry → List Provider → Option (List Provider)
unfolding add_entry
build_entry e ps = elim e.name [
  | none ↦ none
  | some name ↦
      if is_taken name ps then some ps else elim (provider_type_of (default e.type_ "custom")) [
        | none ↦ none
        | some ptype ↦ if is_keyless ptype then add_entry e name ptype ps else some ps
      ]
]

unfoldable pub build_entries : List YamlEntry → List Provider → Option (List Provider)
build_entries [] ps = some ps
build_entries (e ∷ es) ps = elim (build_entry e ps) [ none ↦ none | some qs ↦ build_entries es qs ]

-- The file: absent, not readable as YAML, or its entries.
pub data YamlFile : Type 0 where
  absent unreadable : YamlFile
  entries : List YamlEntry → YamlFile

unfoldable pub build_from_yaml : YamlFile → List Provider → Option (List Provider)
build_from_yaml absent ps = some ps
build_from_yaml unreadable ps = some ps
build_from_yaml (entries es) ps = build_entries es ps

-- `build` on a new registry.
unfoldable pub build : Settings → YamlFile → Option ProviderRegistry
build s file =
    elim (build_from_yaml file (build_keyless_providers (builtin_keyless_providers s) [])) [
      | none ↦ none
      | some ps ↦ some (record { providers = ps; disabled_overrides = [] })
    ]

-- `health_check`: the status of the answer to GET models_path, `none` for an exception.
unfoldable pub health_check : Option ℕ → Bool
health_check none = false
health_check (some status) = ltb status 500

-- One round of `verify_keyless_providers`.
unfoldable pub verify : (String → Option ℕ) → Provider → Provider
unfolding health_check
verify probe p =
    if is_keyless p.provider_type
    then record p { health = if health_check (probe p.name) then healthy else unavailable }
    else p

unfoldable pub verify_keyless_providers : (String → Option ℕ) → List Provider → List Provider
unfolding verify
verify_keyless_providers probe = map (verify probe)

-- `list_models`: the configured names, or what the upstream lists; `none` is an id that is missing.
unfoldable pub list_models : List (Option String) → Provider → List (Option String)
list_models fetched p =
    if is_empty p.config.models then fetched else map (λ m. some m.name) p.config.models

-- dict.fromkeys: the first of each
unfoldable pub from_keys : List String → List String → List String
from_keys seen [] = []
from_keys seen (m ∷ ms) =
    let later = from_keys (m ∷ seen) ms in
    let rest = from_keys seen ms in if any (str_eq m) seen then rest else m ∷ later

-- `m for m in ... if m`
unfoldable pub present : List (Option String) → List String
present [] = []
present (none ∷ ms) = present ms
present (some m ∷ ms) = let rest = present ms in if str_eq m "" then rest else m ∷ rest

unfoldable pub is_unavailable : ProviderHealth → Bool
is_unavailable unavailable = true
is_unavailable _ = false

-- One round of `discover_keyless_models`; an upstream that raises is one that lists nothing.
unfoldable pub discover : (String → List (Option String)) → Provider → Provider
unfolding list_models from_keys present is_unavailable
discover fetch p =
    if not (is_keyless p.provider_type) || is_unavailable p.health
    then p
    else let models = list_models (fetch p.name) p in
      if is_empty models then p else record p {
        config = record (p.config) { models = map model_named (from_keys [] (present models)) };
      }

unfoldable pub discover_keyless_models :
    (String → List (Option String)) → List Provider → List Provider
unfolding discover
discover_keyless_models fetch = map (discover fetch)

-- The start of the application: `build`, then both passes.
unfoldable pub start :
    Settings
    → YamlFile
    → (String → Option ℕ)
    → (String → List (Option String))
    → Option ProviderRegistry
start s file probe fetch = elim (build s file) [
  | none ↦ none
  | some r ↦ some (record r {
    providers = discover_keyless_models fetch (verify_keyless_providers probe r.providers);
  })
]
