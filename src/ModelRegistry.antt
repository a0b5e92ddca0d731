-- ===== src/ModelRegistry.antt =====
-- app/models/registry.py: the aliases, the candidates for a model, and the model list.
pub mod Free
pub mod Catalog
use noxis_api_provider.Prelude.{
  String, Bool, not, List, [], ◌∷◌, any, keep, str_eq, leb_ℤ, if◌then◌else◌,
}
use noxis_api_provider.Sort.{sort}
use noxis_api_provider.Provider.{Provider, is_keyless, is_api_key, supports_model, is_empty}
use noxis_api_provider.ProviderRegistry.{ProviderRegistry, enabled}

abbrev pub noxis_aliases : List String
noxis_aliases = "noxis-auto" ∷ "noxis-fast" ∷ "noxis-smart" ∷ "noxis-free" ∷ []

unfoldable pub is_alias : String → Bool
is_alias model = any (str_eq model) noxis_aliases

-- sorted(providers, key=lambda p: p.config.priority)
unfoldable pub by_priority : List Provider → List Provider
unfolding sort
by_priority = sort (λ p q. not (leb_ℤ p.config.priority q.config.priority))

-- `xs or ys`
abbrev or_else {ℓ} : {A : Type ℓ} → List A → List A → List A
or_else xs ys = if is_empty xs then ys else xs

unfoldable pub candidate_providers_for_model : ProviderRegistry → String → List Provider
unfolding enabled by_priority is_keyless is_api_key supports_model
candidate_providers_for_model r model =
    let providers = enabled r in
    if str_eq model "noxis-free"
    then keep (λ p. is_keyless p.provider_type) providers
    else if str_eq model "noxis-auto"
    then providers
    else if str_eq model "noxis-fast"
    then by_priority providers
    else if str_eq model "noxis-smart"
    then or_else (keep (λ p. is_api_key p.provider_type) providers) providers
    else keep (λ p. supports_model p model) providers
