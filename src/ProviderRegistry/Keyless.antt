-- ===== src/ProviderRegistry/Keyless.antt =====
-- What app/providers/registry.py lets into the registry: providers that need no credential.
use noxis_api_provider.Prelude.{
  ℕ, String, ◌≡◌, refl, ◌⊎◌, inl, inr, true, false, ◌||◌, not, Option, none, some, List, [], ◌∷◌,
  map, subst, All, str_eq, if_intro, Option-cases, arith,
}
use noxis_api_provider.Provider.{
  Provider, ProviderType, keyless, healthy, unavailable, is_keyless, new_provider, is_empty,
}
use noxis_api_provider.ProviderRegistry.{ProviderRegistry}
use noxis_api_provider.ProviderRegistry.Build.{
  Settings, Switch, KeylessSpec, YamlEntry, builtin_keyless_providers, build_keyless_providers,
  keyless_config, put, default, provider_type_of, yaml_models, yaml_config,
}
use noxis_api_provider.ProviderRegistry.Startup.{
  is_taken, add_entry, build_entry, build_entries, YamlFile, absent, unreadable, entries,
  build_from_yaml, build, health_check, verify, verify_keyless_providers, discover, list_models,
  is_unavailable, discover_keyless_models, start,
}

-- No credential is needed, and none is held.
pub record NeedsNoKey (p : Provider) : Type 0 where
  pub type_ : p.provider_type ≡ keyless
  pub not_required : p.config.requires_api_key ≡ false
  pub not_held : p.config.api_key ≡ none

-- A result that holds what it should, where there is one.
abbrev pub OnSome {ℓ} : {A : Type ℓ} → (A → Type 0) → Option A → Type 0
OnSome P none = Unit
OnSome P (some a) = P a

OnSome-bind :
    {A B : Type 0} (P : B → Type 0) (o : Option A) (f : A → Option B)
    → ((a : A) → OnSome P (f a))
    → OnSome P (elim o [ none ↦ none | some a ↦ f a ])
OnSome-bind P none f h = tt
OnSome-bind P (some a) f h = h a

All-put :
    (P : Provider → Type 0) (p : Provider) (ps : List Provider) → P p → All P ps → All P (put p ps)
unfolding put
All-put P p [] h hs = (h, tt)
All-put P p (q ∷ qs) h hs =
    if_intro (All P) (str_eq q.name p.name) _ _ (λ _. (h, hs.1))
      (λ _. (hs.0, All-put P p qs h hs.1))

build_keyless-NeedsNoKey :
    (specs : List (KeylessSpec × Switch)) (ps : List Provider)
    → All NeedsNoKey ps
    → All NeedsNoKey (build_keyless_providers specs ps)
unfolding build_keyless_providers new_provider keyless_config
build_keyless-NeedsNoKey [] ps h = h
build_keyless-NeedsNoKey ((spec, switch) ∷ rest) ps h = build_keyless-NeedsNoKey rest _ (
    if_intro (All NeedsNoKey) (not switch.enabled || str_eq switch.base_url "") _ _ (λ _. h)
      (λ _.
        All-put NeedsNoKey _ ps (record { type_ = refl; not_required = refl; not_held = refl }) h))

is_keyless-keyless : (t : ProviderType) → is_keyless t ≡ true → t ≡ keyless
unfolding is_keyless
is_keyless-keyless t h = ground (arith, h)

add_entry-NeedsNoKey :
    (e : YamlEntry) (name : String) (ptype : ProviderType) (ps : List Provider)
    → ptype ≡ keyless
    → All NeedsNoKey ps
    → OnSome (All NeedsNoKey) (add_entry e name ptype ps)
unfolding add_entry new_provider yaml_config
add_entry-NeedsNoKey e name ptype ps type_ h = OnSome-bind (All NeedsNoKey) e.base_url _ λ url.
    OnSome-bind (All NeedsNoKey) (yaml_models e.models) _ λ models.
      if_intro (All NeedsNoKey) (default e.enabled true) _ _
        (λ _.
          All-put NeedsNoKey _ ps (record { type_ = type_; not_required = refl; not_held = refl })
            h)
        (λ _. h)

build_entry-NeedsNoKey :
    (e : YamlEntry) (ps : List Provider)
    → All NeedsNoKey ps
    → OnSome (All NeedsNoKey) (build_entry e ps)
unfolding build_entry
build_entry-NeedsNoKey e ps h = OnSome-bind (All NeedsNoKey) e.name _ λ name.
    if_intro (OnSome (All NeedsNoKey)) (is_taken name ps) _ _ (λ _. h)
      (λ _. OnSome-bind (All NeedsNoKey) (provider_type_of (default e.type_ "custom")) _ λ ptype.
        if_intro (OnSome (All NeedsNoKey)) (is_keyless ptype) _ _
          (λ k. add_entry-NeedsNoKey e name ptype ps (is_keyless-keyless ptype k) h) (λ _. h))

build_entries-NeedsNoKey :
    (es : List YamlEntry) (ps : List Provider)
    → All NeedsNoKey ps
    → OnSome (All NeedsNoKey) (build_entries es ps)
unfolding build_entries
build_entries-NeedsNoKey [] ps h = h
build_entries-NeedsNoKey (e ∷ es) ps h = elim (Option-cases (build_entry e ps)) [
  | inl q ↦ rw (q, build_entries) tt
  | inr (qs, q) ↦
      rw (q, build_entries)
        (build_entries-NeedsNoKey es qs
          (subst (OnSome (All NeedsNoKey)) q (build_entry-NeedsNoKey e ps h)))
]

build_from_yaml-NeedsNoKey :
    (file : YamlFile) (ps : List Provider)
    → All NeedsNoKey ps
    → OnSome (All NeedsNoKey) (build_from_yaml file ps)
unfolding build_from_yaml
build_from_yaml-NeedsNoKey absent ps h = h
build_from_yaml-NeedsNoKey unreadable ps h = h
build_from_yaml-NeedsNoKey (entries es) ps h = build_entries-NeedsNoKey es ps h

-- What a provider is when the application has started.
pub record IsStarted (p : Provider) : Type 0 where
  pub needs_no_key : NeedsNoKey p
  pub checked : (p.health ≡ healthy) ⊎ (p.health ≡ unavailable)

verify-IsStarted :
    (probe : String → Option ℕ) (p : Provider) → NeedsNoKey p → IsStarted (verify probe p)
unfolding verify is_keyless
verify-IsStarted probe p h =
    if_intro IsStarted (is_keyless p.provider_type) _ _
      (λ _. record {
        needs_no_key = record {
          type_ = h.type_;
          not_required = h.not_required;
          not_held = h.not_held;
        };
        checked =
            if_intro (λ v. (v ≡ healthy) ⊎ (v ≡ unavailable)) (health_check (probe p.name)) _ _
              (λ _. inl refl) (λ _. inr refl);
      })
      (λ e. absurd (ground (arith, h.type_)))

discover-IsStarted :
    (fetch : String → List (Option String)) (p : Provider)
    → IsStarted p
    → IsStarted (discover fetch p)
unfolding discover
discover-IsStarted fetch p h =
    if_intro IsStarted (not (is_keyless p.provider_type) || is_unavailable p.health) _ _ (λ _. h)
      (λ _.
        if_intro IsStarted (is_empty (list_models (fetch p.name) p)) _ _ (λ _. h)
          (λ _. record {
            needs_no_key = record {
              type_ = h.needs_no_key.type_;
              not_required = h.needs_no_key.not_required;
              not_held = h.needs_no_key.not_held;
            };
            checked = h.checked;
          }))

All-image :
    (P Q : Provider → Type 0) (g : Provider → Provider) (ps : List Provider)
    → ((p : Provider) → P p → Q (g p))
    → All P ps
    → All Q (map g ps)
All-image P Q g [] f h = tt
All-image P Q g (p ∷ ps) f h = (f p h.0, All-image P Q g ps f h.1)

-- Whatever the settings and providers.yaml say, and whatever the upstreams answer: if the application
-- starts, every provider in the registry is keyless, requires no key and holds none, and has been
-- checked, so that it is HEALTHY or UNAVAILABLE.
pub start-IsStarted :
    (s : Settings) (file : YamlFile) (probe : String → Option ℕ)
    (fetch : String → List (Option String))
    → OnSome (λ (r : ProviderRegistry). All IsStarted r.providers) (start s file probe fetch)
unfolding start build
start-IsStarted s file probe fetch =
    let builtin = build_keyless_providers (builtin_keyless_providers s) [] in
    elim (Option-cases (build_from_yaml file builtin)) [
      | inl q ↦ rw (q, start, build) tt
      | inr (ps, q) ↦
          let good : All NeedsNoKey ps =
            subst (OnSome (All NeedsNoKey)) q
              (build_from_yaml-NeedsNoKey file builtin (build_keyless-NeedsNoKey _ [] tt)) in
          rw (q, start, build)
            (unfold discover_keyless_models in
              unfold verify_keyless_providers in
              All-image IsStarted IsStarted (discover fetch) _ (discover-IsStarted fetch)
                (All-image NeedsNoKey IsStarted (verify probe) ps (verify-IsStarted probe) good))
    ]
