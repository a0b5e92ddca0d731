-- ===== src/ProviderRegistry/Switches.antt =====
-- The administrator's switches of app/providers/registry.py.
use noxis_api_provider.Prelude.{
  String, ◌≡◌, ap, Bool, true, false, ◌&&◌, not, List, [], ◌∷◌, any, str_eq, str_eq_iff, Bool-cases,
  inl, inr, if◌then◌else◌, arith,
}
use noxis_api_provider.ProviderRegistry.{
  ProviderRegistry, is_admin_disabled, discard, add, is_known, set_enabled,
}

any-discard :
    (name j : String) (s : List String)
    → any (λ n. str_eq n j) (discard name s) ≡ (not (str_eq name j) && any (λ n. str_eq n j) s)
unfolding discard
any-discard name j [] = ground arith
any-discard name j (n ∷ s) =
    ground (arith, any-discard name j s, str_eq_iff name j, str_eq_iff n name, str_eq_iff n j)

any-add :
    (name j : String) (s : List String)
    → any (λ n. str_eq n j) (add name s) ≡ (if str_eq name j then true else any (λ n. str_eq n j) s)
unfolding add
any-add name j s = elim (Bool-cases (str_eq name j)) [
  | inl e ↦ ground (arith, any_same, str_eq_iff name j)
  | inr e ↦ ground arith
]
  where
    any_same : str_eq name j ≡ true → any (λ n. str_eq n name) s ≡ any (λ n. str_eq n j) s
    any_same e = ap (λ k. any (λ n. str_eq n k) s) ((str_eq_iff name j).0 e)

-- Switching a known provider decides its own flag and nobody else's; a name that no provider has is
-- refused, and changes nothing.
pub is_admin_disabled-set_enabled :
    (name j : String) (on : Bool) (r : ProviderRegistry)
    → is_admin_disabled j (set_enabled name on r).1
      ≡ (if is_known name r && str_eq name j then not on else is_admin_disabled j r)
unfolding is_admin_disabled set_enabled
is_admin_disabled-set_enabled name j true r =
    ground (arith, any-discard name j r.disabled_overrides)
is_admin_disabled-set_enabled name j false r = ground (arith, any-add name j r.disabled_overrides)
