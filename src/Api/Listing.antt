-- ===== src/Api/Listing.antt =====
-- What the listing endpoints of app/api keep to themselves.
use noxis_api_provider.Prelude.{
  ℕ, String, ◌≡◌, refl, ap, ap₂, Option, List, [], ◌∷◌, map, keep, length, Bool-cases, inl, inr,
  arith,
}
use noxis_api_provider.Float.{Float}
use noxis_api_provider.Provider.{Provider, has_text, is_empty}
use noxis_api_provider.ProviderRegistry.{ProviderRegistry, is_admin_disabled}
use noxis_api_provider.Usage.{UsageRecord, tally}
use noxis_api_provider.App.{App}
use noxis_api_provider.RateLimiter.{RateLimiter, snapshot}
use noxis_api_provider.Api.Admin.{
  is_on, provider_entry, provider_entries, health_entry, config_entry,
}
use noxis_api_provider.Api.Health.{
  is_healthy, listing, listings, health_value, health, providers_list, status,
}

-- The same provider with another credential.
abbrev pub with_api_key : (Provider → Option String) → Provider → Provider
with_api_key key p = record p { config = record (p.config) { api_key = key p } }

module _ {ℓ} {F : Type ℓ} {C : Type 0} where
  -- The same application with other secrets.
  abbrev pub with_secrets :
      (Provider → Option String) → Option String → String → Option String → App F C → App F C
  with_secrets key master_key gateway_keys redis_url app = record app {
    settings = record (app.settings) {
      noxis_master_key = master_key;
      noxis_gateway_keys = gateway_keys;
      redis_url = redis_url;
    };
    shared = record (app.shared) {
      registry = record (app.shared.registry) {
        providers = map (with_api_key key) app.shared.registry.providers;
      };
    };
  }

-- What the two make the same of each provider, they make the same of all.
map-again :
    {A : Type 0} (f g : Provider → A) (h : Provider → Provider) (ps : List Provider)
    → ((p : Provider) → f (h p) ≡ g p)
    → map f (map h ps) ≡ map g ps
map-again f g h [] e = refl
map-again f g h (p ∷ ps) e = ap₂ (λ x xs. x ∷ xs) (e p) (map-again f g h ps e)

listings-again :
    (clock : String → ℕ) (key : Provider → Option String) (r : ProviderRegistry)
    (qs ps : List Provider) (rl : RateLimiter)
    → (listings clock (record r { providers = qs }) (map (with_api_key key) ps) rl).0
      ≡ (listings clock r ps rl).0
unfolding listings listing is_on is_admin_disabled
listings-again clock key r qs [] rl = refl
listings-again clock key r qs (p ∷ ps) rl =
    ap (λ xs. listing r p (snapshot (clock p.name) p.name rl).0 ∷ xs)
      (listings-again clock key r qs ps (snapshot (clock p.name) p.name rl).1)

length-map : {A B : Type 0} (g : A → B) (xs : List A) → length (map g xs) ≡ length xs
length-map g [] = refl
length-map g (x ∷ xs) = omega (arith, length-map g xs)

well-again :
    (key : Provider → Option String) (ps : List Provider)
    → length (keep (λ p. is_healthy p.health) (map (with_api_key key) ps))
      ≡ length (keep (λ p. is_healthy p.health) ps)
well-again key [] = refl
well-again key (p ∷ ps) = ground (arith, well-again key ps)

empty-again :
    (key : Provider → Option String) (ps : List Provider)
    → is_empty (keep (λ p. is_healthy p.health) (map (with_api_key key) ps))
      ≡ is_empty (keep (λ p. is_healthy p.health) ps)
empty-again key [] = refl
empty-again key (p ∷ ps) = elim (Bool-cases (is_healthy p.health)) [
  | inl e ↦ rw e refl
  | inr e ↦ rw e (empty-again key ps)
]

module _ {ℓ} {F : Type ℓ} {C : Type 0} ⦃f : Float F⦄ where
  -- No list tells a secret: the listing endpoints answer the same whatever the keys of the providers are,
  -- as long as the same providers have one, and whatever the master key, the keys of the gateway and
  -- the URL of Redis are.
  pub lists-hide :
      (clock : String → ℕ) (query : ℕ → List (UsageRecord F) → List (UsageRecord F))
      (key : Provider → Option String) (master_key : Option String) (gateway_keys : String)
      (redis_url : Option String) (app : App F C)
      → ((p : Provider) → has_text (key p) ≡ has_text p.config.api_key)
      → let other = with_secrets key master_key gateway_keys redis_url app in
        (provider_entries other ≡ provider_entries app)
        × (map health_entry other.shared.registry.providers
            ≡ map health_entry app.shared.registry.providers)
        × (config_entry other ≡ config_entry app)
        × (health other ≡ health app)
        × ((providers_list clock other).0 ≡ (providers_list clock app).0)
        × (status query other ≡ status query app)
  unfolding provider_entries provider_entry is_on is_admin_disabled health_entry config_entry health
      providers_list status
  lists-hide clock query key master_key gateway_keys redis_url app same =
      let ps = app.shared.registry.providers in
      let r = app.shared.registry in
      (
        map-again _ (provider_entry r) (with_api_key key) ps
            (λ p. ap (λ b. record (provider_entry r p) { has_credential = b }) (same p)),
        map-again health_entry health_entry (with_api_key key) ps (λ p. refl),
        ap (λ n. record (config_entry app) { providers_configured = n })
            (length-map (with_api_key key) ps),
        rw (length-map (with_api_key key) ps, well-again key ps, empty-again key ps, health) refl,
        listings-again clock key r (map (with_api_key key) ps) ps app.shared.limiter,
        ap (λ vs. record (status query app) { providers_by_health = tally vs [] })
            (map-again (λ p. health_value p.health) (λ p. health_value p.health) (with_api_key key)
              ps (λ p. refl)),
      )
