-- ===== src/ProviderRegistry.antt =====
-- app/providers/registry.py: the providers by name, and the administrator's switches.
pub mod Build
pub mod Startup
pub mod Keyless
pub mod Switches
pub mod Tests
use noxis_api_provider.Prelude.{
  String, Bool, true, false, ◌&&◌, not, Option, List, ◌∷◌, any, keep, str_eq, if◌then◌else◌,
}
use noxis_api_provider.Provider.{Provider, find}

-- The dict of providers is in insertion order, each under its own name.
pub record ProviderRegistry : Type 0 where
  pub providers : List Provider
  pub disabled_overrides : List String

unfoldable pub get : String → ProviderRegistry → Option Provider
unfolding find
get name r = find name r.providers

abbrev pub all : ProviderRegistry → List Provider
all r = r.providers

unfoldable pub is_admin_disabled : String → ProviderRegistry → Bool
is_admin_disabled name r = any (λ n. str_eq n name) r.disabled_overrides

unfoldable pub enabled : ProviderRegistry → List Provider
unfolding is_admin_disabled
enabled r = keep (λ p. p.config.enabled && not (is_admin_disabled p.name r)) r.providers

-- The set's `discard` and `add`.
unfoldable pub discard : String → List String → List String
discard name = keep (λ n. not (str_eq n name))

unfoldable pub add : String → List String → List String
add name s = if any (λ n. str_eq n name) s then s else name ∷ s

unfoldable pub is_known : String → ProviderRegistry → Bool
is_known name r = any (λ p. str_eq p.name name) r.providers

unfoldable pub set_enabled : String → Bool → ProviderRegistry → Bool × ProviderRegistry
unfolding discard add is_known
set_enabled name on r = if not (is_known name r) then (false, r) else (
  true,
  record r {
    disabled_overrides =
        if on then discard name r.disabled_overrides else add name r.disabled_overrides;
  },
)
