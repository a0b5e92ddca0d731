-- ===== src/ModelRegistry/Catalog.antt =====
-- `list_models` of app/models/registry.py: the catalog of the keyless providers. The order of texts is
-- a parameter.
use noxis_api_provider.Prelude.{
  String, ◌≡◌, sym, ap, ◌∙◌, Bool, List, [], ◌∷◌, ◌++◌, map, keep, Bool-cases, inl, inr, str_eq,
  str_eq_iff, if◌then◌else◌, arith,
}
use mathlib.Core.List.{append_assoc, append-nil}
use noxis_api_provider.Dict
use noxis_api_provider.Dict.{Dict, get_or-set}
use noxis_api_provider.Sort.{sort}
use noxis_api_provider.Provider.{Provider, ModelSpec, is_keyless}
use noxis_api_provider.ProviderRegistry.{ProviderRegistry, enabled}

-- An entry of the list; the time of its making is left out.
pub record ModelInfo : Type 0 where
  pub id : String
  pub owned_by : String
  pub noxis_providers : List String

-- seen.setdefault(m.name, []).append(provider.name), for each model of one provider
unfoldable pub offer : String → List ModelSpec → Dict (List String) → Dict (List String)
offer name [] seen = seen
offer name (m ∷ ms) seen =
    offer name ms (Dict.set m.name (Dict.get_or m.name [] seen ++ name ∷ []) seen)

unfoldable pub catalog : List Provider → Dict (List String) → Dict (List String)
unfolding offer
catalog [] seen = seen
catalog (p ∷ ps) seen =
    catalog ps (if is_keyless p.provider_type then offer p.name p.config.models seen else seen)

-- `after k j` says that the text k comes after j.
unfoldable pub list_models : (String → String → Bool) → ProviderRegistry → List ModelInfo
unfolding catalog sort enabled
list_models after r =
    map (λ e. record { id = e.0; owned_by = "noxis"; noxis_providers = e.1 })
      (sort (λ d e. after d.0 e.0) (catalog (enabled r) []))
    ++ record { id = "noxis-free"; owned_by = "noxis-router"; noxis_providers = "keyless" ∷ [] }
      ∷ []

-- The names of the keyless providers that offer a model, each as often as it lists it.
abbrev pub offered_by : String → List Provider → List String
offered_by k [] = []
offered_by k (p ∷ ps) =
    (if is_keyless p.provider_type
      then map (λ (m : ModelSpec). p.name) (keep (λ m. str_eq m.name k) p.config.models)
      else [])
    ++ offered_by k ps

get_or-offer :
    (k name : String) (ms : List ModelSpec) (seen : Dict (List String))
    → Dict.get_or k [] (offer name ms seen)
      ≡ Dict.get_or k [] seen ++ map (λ (m : ModelSpec). name) (keep (λ m. str_eq m.name k) ms)
unfolding offer
get_or-offer k name [] seen = sym (append-nil (Dict.get_or k [] seen))
get_or-offer k name (m ∷ ms) seen =
    let later = map (λ (m : ModelSpec). name) (keep (λ m. str_eq m.name k) ms) in
    let seen' = Dict.set m.name (Dict.get_or m.name [] seen ++ name ∷ []) seen in
    let rest = get_or-offer k name ms seen' in
    let write = get_or-set m.name k [] (Dict.get_or m.name [] seen ++ name ∷ []) seen in
    elim (Bool-cases (str_eq m.name k)) [
      | inl e ↦
          let here : Dict.get_or k [] seen' ≡ Dict.get_or k [] seen ++ name ∷ [] =
            ground (arith, write, (str_eq_iff m.name k).0 e) in
          rw e (
            rest
            ∙ (ap (λ l. l ++ later) here ∙ append_assoc (Dict.get_or k [] seen) (name ∷ []) later))
      | inr e ↦
          let here : Dict.get_or k [] seen' ≡ Dict.get_or k [] seen = ground (arith, write, e) in
          rw e (rest ∙ ap (λ l. l ++ later) here)
    ]

get_or-catalog :
    (k : String) (ps : List Provider) (seen : Dict (List String))
    → Dict.get_or k [] (catalog ps seen) ≡ Dict.get_or k [] seen ++ offered_by k ps
unfolding catalog
get_or-catalog k [] seen = sym (append-nil (Dict.get_or k [] seen))
get_or-catalog k (p ∷ ps) seen = elim (Bool-cases (is_keyless p.provider_type)) [
  | inl e ↦ rw e (
      get_or-catalog k ps (offer p.name p.config.models seen)
      ∙ (ap (λ l. l ++ offered_by k ps) (get_or-offer k p.name p.config.models seen)
          ∙ append_assoc (Dict.get_or k [] seen) _ (offered_by k ps)))
  | inr e ↦ rw e (get_or-catalog k ps seen)
]

-- The catalog gives for each model the keyless providers that list it, in the order of the registry,
-- and no provider of another type.
pub catalog-offered_by :
    (k : String) (ps : List Provider) → Dict.get_or k [] (catalog ps []) ≡ offered_by k ps
unfolding Dict.get_or
catalog-offered_by k ps = get_or-catalog k ps []
