-- ===== src/ModelRegistry/Free.antt =====
-- The alias noxis-free of app/models/registry.py never leads to a provider with a credential.
use noxis_api_provider.Prelude.{◌≡◌, refl, true, List, [], ◌∷◌, All, keep, if_intro, arith}
use noxis_api_provider.Provider.{
  Provider, keyless, api_key, oauth, custom, ProviderType, is_keyless,
}
use noxis_api_provider.ProviderRegistry.{ProviderRegistry, enabled}
use noxis_api_provider.ModelRegistry.{candidate_providers_for_model}

is_keyless_iff : (t : ProviderType) → is_keyless t ≡ true → t ≡ keyless
unfolding is_keyless
is_keyless_iff keyless h = refl
is_keyless_iff api_key h = absurd (ground arith)
is_keyless_iff oauth h = absurd (ground arith)
is_keyless_iff custom h = absurd (ground arith)

keep-IsKeyless :
    (ps : List Provider)
    → All (λ p. p.provider_type ≡ keyless) (keep (λ p. is_keyless p.provider_type) ps)
keep-IsKeyless [] = tt
keep-IsKeyless (p ∷ ps) =
    if_intro (All (λ p. p.provider_type ≡ keyless)) (is_keyless p.provider_type) _ _
      (λ e. (is_keyless_iff p.provider_type e, keep-IsKeyless ps)) (λ _. keep-IsKeyless ps)

-- Whatever providers the registry has, the candidates for noxis-free are keyless, all of them: there is
-- no fallback to a provider of another type.
pub candidates-noxis_free :
    (r : ProviderRegistry)
    → All (λ p. p.provider_type ≡ keyless) (candidate_providers_for_model r "noxis-free")
unfolding candidate_providers_for_model
candidates-noxis_free r = keep-IsKeyless (enabled r)
