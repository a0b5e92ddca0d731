-- ===== src/Api/FirstGood.antt =====
-- Which answer app/api/embeddings.py gives.
use mathlib.Core.List.{Perm}
use mathlib.Core.List.Perm
use noxis_api_provider.Sort.{Sorted, IsOrder, sort, sort-perm, sort-Sorted}
use noxis_api_provider.Prelude.{
  ◌≢◌, ℤ, leb_ℤ, not, ◌&&◌, sym, subst, false, arith, String, ◌≡◌, refl, ap, Bool, true, ◌⊎◌, inl,
  inr, List, [], ◌∷◌, ◌++◌, map, keep, All, Bool-cases, if◌then◌else◌,
}
use noxis_api_provider.Json.{Fields}
use noxis_api_provider.Provider.{Provider, supports_model, is_empty}
use noxis_api_provider.ProviderRegistry.{ProviderRegistry, enabled}
use noxis_api_provider.ModelRegistry.{by_priority}
use noxis_api_provider.Api.Admin.{is_on}
use noxis_api_provider.Api.Embeddings.{
  EmbeddingsRequest, EmbeddingsCall, Upstream, LastError, no_error, EmbeddingsAnswer, embeddings,
  unsupported, all_failed, candidates, embeddings_call, Round, good, bad, round_of, ask_all, embed,
}

Round-cases : (r : Round) → ((fs : Fields) × (r ≡ good fs)) ⊎ ((e : LastError) × (r ≡ bad e))
Round-cases (good fs) = inl (fs, refl)
Round-cases (bad e) = inr (e, refl)

-- By priority, the lower number first.
abbrev pub Ascending : List Provider → Type 0
Ascending [] = Unit
Ascending (p ∷ ps) =
    All (λ (q : Provider). leb_ℤ p.config.priority q.config.priority ≡ true) ps × Ascending ps

abbrev later : Provider → Provider → Bool
later p q = not (leb_ℤ p.config.priority q.config.priority)

leb_ℤ-total : (a b : ℤ) → (leb_ℤ a b ≡ true) ⊎ (leb_ℤ b a ≡ true)
leb_ℤ-total a b = elim (Bool-cases (leb_ℤ a b)) [ inl e ↦ inl e | inr e ↦ inr (ground (arith, e)) ]

leb_ℤ-trans : (a b c : ℤ) → leb_ℤ a b ≡ true → leb_ℤ b c ≡ true → leb_ℤ a c ≡ true
leb_ℤ-trans a b c h k = ground (arith, h, k)

not-false : (b : Bool) → not b ≡ false → b ≡ true
not-false true h = refl
not-false false h = absurd (ground (arith, h))

later-IsOrder : IsOrder later
later-IsOrder = record {
  total = λ p q. elim (leb_ℤ-total p.config.priority q.config.priority) [
    | inl e ↦ inl (ap not e)
    | inr e ↦ inr (ap not e)
  ];
  trans = λ p q r h k. ap not (
      leb_ℤ-trans p.config.priority q.config.priority r.config.priority (not-false _ h)
        (not-false _ k));
}

All-not_later :
    (p : Provider) (ps : List Provider)
    → All (λ q. later p q ≡ false) ps
    → All (λ (q : Provider). leb_ℤ p.config.priority q.config.priority ≡ true) ps
All-not_later p [] h = tt
All-not_later p (q ∷ ps) h = (not-false _ h.0, All-not_later p ps h.1)

Sorted-Ascending : (ps : List Provider) → Sorted later ps → Ascending ps
Sorted-Ascending [] h = tt
Sorted-Ascending (p ∷ ps) h = (All-not_later p ps h.0, Sorted-Ascending ps h.1)

sort-nonempty :
    (after : Provider → Provider → Bool) (p : Provider) (ps : List Provider)
    → sort after (p ∷ ps) ≢ []
sort-nonempty after p ps e =
    let empty : [] ≡ p ∷ ps =
      Perm.nil-eq (subst (λ l. Perm l (p ∷ ps)) e (sort-perm after (p ∷ ps))) in
    absurd cc

-- A provider that is asked for the model.
abbrev pub is_asked : String → ProviderRegistry → Provider → Bool
is_asked model r p = is_on r p && supports_model p model

keep-keep :
    (p q : Provider → Bool) (ps : List Provider) → keep q (keep p ps) ≡ keep (λ x. p x && q x) ps
keep-keep p q [] = refl
keep-keep p q (x ∷ ps) = elim (Bool-cases (p x)) [
  | inl e ↦ elim (Bool-cases (q x)) [
    | inl h ↦ rw (e, h) (ap (λ l. x ∷ l) (keep-keep p q ps))
    | inr h ↦ rw (e, h) (keep-keep p q ps)
  ]
  | inr e ↦ rw e (keep-keep p q ps)
]

candidates-is_asked :
    (model : String) (r : ProviderRegistry)
    → candidates r model ≡ keep (is_asked model r) r.providers
unfolding candidates enabled is_on
candidates-is_asked model r = keep-keep _ _ r.providers

module _ (payload : EmbeddingsRequest) (new_id : String) (upstream : String → Upstream) where
  -- The provider's answer is no good.
  abbrev pub Fails : Provider → Type 0
  Fails p = (e : LastError) × (round_of new_id p.name (upstream p.name) ≡ bad e)

  -- The answer is that of a provider, and those before it, which were asked too, have failed.
  pub record FirstGood (ps : List Provider) (answer : EmbeddingsAnswer)
      (calls : List EmbeddingsCall) : Type 0 where
    pub before : List Provider
    pub provider : Provider
    pub after : List Provider
    pub fields : Fields
    pub order : ps ≡ before ++ provider ∷ after
    pub failed : All Fails before
    pub good_one : round_of new_id provider.name (upstream provider.name) ≡ good fields
    pub given : answer ≡ embeddings fields
    pub asked : calls ≡ map (embeddings_call payload) (before ++ provider ∷ [])

  -- Every provider was asked, and none has a good answer.
  pub record AllFailed (ps : List Provider) (answer : EmbeddingsAnswer)
      (calls : List EmbeddingsCall) : Type 0 where
    pub last : LastError
    pub failed : All Fails ps
    pub given : answer ≡ all_failed last
    pub asked : calls ≡ map (embeddings_call payload) ps

  abbrev pub Ends : List Provider → EmbeddingsAnswer × List EmbeddingsCall → Type 0
  Ends ps (answer, calls) = FirstGood ps answer calls ⊎ AllFailed ps answer calls

  Ends-cons :
      (p : Provider) (ps : List Provider) (r : EmbeddingsAnswer × List EmbeddingsCall)
      → Fails p
      → Ends ps r
      → Ends (p ∷ ps) (r.0, embeddings_call payload p ∷ r.1)
  Ends-cons p ps r f (inl g) = inl (record {
    before = p ∷ g.before;
    provider = g.provider;
    after = g.after;
    fields = g.fields;
    order = ap (λ x. p ∷ x) g.order;
    failed = (f, g.failed);
    good_one = g.good_one;
    given = g.given;
    asked = ap (λ x. embeddings_call payload p ∷ x) g.asked;
  })
  Ends-cons p ps r f (inr a) = inr (record {
    last = a.last;
    failed = (f, a.failed);
    given = a.given;
    asked = ap (λ x. embeddings_call payload p ∷ x) a.asked;
  })

  ask_all-Ends :
      (last : LastError) (ps : List Provider) → Ends ps (ask_all payload new_id upstream last ps)
  unfolding ask_all
  ask_all-Ends last [] = inr (record { last = last; failed = tt; given = refl; asked = refl })
  ask_all-Ends last (p ∷ ps) = elim (Round-cases (round_of new_id p.name (upstream p.name))) [
    | inl (fs, e) ↦
        rw (e, ask_all)
          (inl (record {
            before = [];
            provider = p;
            after = ps;
            fields = fs;
            order = refl;
            failed = tt;
            good_one = e;
            given = refl;
            asked = refl;
          }))
    | inr (err, e) ↦ rw (e, ask_all) (Ends-cons p ps _ (err, e) (ask_all-Ends err ps))
  ]

  -- The body of the endpoint asks the providers that are on and support the model, each as often as the registry has
  -- it and no other, the one with the lower priority number first, until one has a good answer, which is
  -- the answer then; if every one of them fails, each was asked; and exactly if there is none of them,
  -- nothing is sent and the answer says that the model is not supported.
  pub embed-Ends :
      (r : ProviderRegistry)
      → (order : List Provider) × Perm order (keep (is_asked payload.model r) r.providers)
        × Ascending order
        × (((order ≡ []) × (embed payload new_id upstream r ≡ (unsupported, [])))
            ⊎ ((order ≢ []) × Ends order (embed payload new_id upstream r)))
  unfolding embed by_priority
  embed-Ends r = by_count (candidates r payload.model) (candidates-is_asked payload.model r)
    where
      by_count :
          (ps : List Provider)
          → ps ≡ keep (is_asked payload.model r) r.providers
          → let result =
              if is_empty ps
              then (unsupported, [])
              else ask_all payload new_id upstream no_error (by_priority ps) in
            (order : List Provider) × Perm order (keep (is_asked payload.model r) r.providers)
            × Ascending order
            × (((order ≡ []) × (result ≡ (unsupported, []))) ⊎ ((order ≢ []) × Ends order result))
      by_count [] e = ([], rw (sym e) (Perm.refl []), tt, inl (refl, refl))
      by_count (p ∷ ps) e = (
        by_priority (p ∷ ps),
        rw (sym e) (sort-perm later (p ∷ ps)),
        Sorted-Ascending _ (sort-Sorted later later-IsOrder (p ∷ ps)),
        inr (sort-nonempty later p ps, ask_all-Ends no_error (by_priority (p ∷ ps))),
      )
