-- ===== src/CacheKey/Collisions.antt =====
-- Which requests share an answer of the cache in app/core/cache.py.
use noxis_api_provider.Prelude.{
  ℕ, ◌+◌, ◌≤◌, String, ◌≡◌, refl, ap, ◌∙◌, inl, inr, Bool-cases, Option-cases, some, List, [], ◌∷◌,
  In, str_eq, str_eq_iff, arith,
}
use noxis_api_provider.Dict
use noxis_api_provider.Dict.{get-pop}
use noxis_api_provider.Json.{Json}
use noxis_api_provider.Schemas.{ChatCompletionRequest}
use noxis_api_provider.Cache.{InMemoryCache, new_cache, lookup, store_value}
use noxis_api_provider.Cache.Lookup.{answer, lookup-store_value}
use noxis_api_provider.CacheKey.{Relevant, relevant, build_cache_key}

-- What the endpoint does to the cache, each at its time.
pub data Use : Type 0 where
  looked : (now : ℕ) (r : ChatCompletionRequest) → Use
  stored : (now : ℕ) (r : ChatCompletionRequest) (value : Json) → Use

ttl-lookup : (now : ℕ) (key : String) (c : InMemoryCache) → (lookup now key c).1.ttl ≡ c.ttl
unfolding lookup
ttl-lookup now key c = elim (Option-cases (Dict.get key c.store)) [
  | inl e ↦ rw (e, lookup) refl
  | inr (v, e) ↦ ground (arith, e)
]

-- Two requests agree on the twelve fields.
pub record Agree (q r : ChatCompletionRequest) : Type 0 where
  pub model : q.model ≡ r.model
  pub messages : q.messages ≡ r.messages
  pub temperature : q.temperature ≡ r.temperature
  pub top_p : q.top_p ≡ r.top_p
  pub max_tokens : q.max_tokens ≡ r.max_tokens
  pub stop : q.stop ≡ r.stop
  pub presence_penalty : q.presence_penalty ≡ r.presence_penalty
  pub frequency_penalty : q.frequency_penalty ≡ r.frequency_penalty
  pub tools : q.tools ≡ r.tools
  pub tool_choice : q.tool_choice ≡ r.tool_choice
  pub response_format : q.response_format ≡ r.response_format
  pub seed : q.seed ≡ r.seed

relevant-Agree : (q r : ChatCompletionRequest) → relevant q ≡ relevant r → Agree q r
unfolding relevant
relevant-Agree q r e = record {
  model = ap (λ (x : Relevant). x.model) e;
  messages = ap (λ (x : Relevant). x.messages) e;
  temperature = ap (λ (x : Relevant). x.temperature) e;
  top_p = ap (λ (x : Relevant). x.top_p) e;
  max_tokens = ap (λ (x : Relevant). x.max_tokens) e;
  stop = ap (λ (x : Relevant). x.stop) e;
  presence_penalty = ap (λ (x : Relevant). x.presence_penalty) e;
  frequency_penalty = ap (λ (x : Relevant). x.frequency_penalty) e;
  tools = ap (λ (x : Relevant). x.tools) e;
  tool_choice = ap (λ (x : Relevant). x.tool_choice) e;
  response_format = ap (λ (x : Relevant). x.response_format) e;
  seed = ap (λ (x : Relevant). x.seed) e;
}

module _ (digest : Relevant → String) where
  -- The cache after these uses of a new one, the latest first.
  abbrev pub cache_after : ℕ → List Use → InMemoryCache
  cache_after ttl [] = new_cache ttl
  cache_after ttl (looked now r ∷ us) =
      (lookup now (build_cache_key digest r) (cache_after ttl us)).1
  cache_after ttl (stored now r value ∷ us) =
      store_value now (build_cache_key digest r) value (cache_after ttl us)

  -- No stored request has the digest of this one but differs from it in what is digested.
  abbrev pub Distinguished : ChatCompletionRequest → List Use → Type 0
  Distinguished r [] = Unit
  Distinguished r (looked now q ∷ us) = Distinguished r us
  Distinguished r (stored now q value ∷ us) =
      (digest (relevant q) ≡ digest (relevant r) → relevant q ≡ relevant r) × Distinguished r us

  ttl_of : (ttl : ℕ) (us : List Use) → (cache_after ttl us).ttl ≡ ttl
  unfolding new_cache store_value
  ttl_of ttl [] = refl
  ttl_of ttl (looked now r ∷ us) =
      ttl-lookup now (build_cache_key digest r) (cache_after ttl us) ∙ ttl_of ttl us
  ttl_of ttl (stored now r value ∷ us) = ttl_of ttl us

  -- A lookup adds no answer.
  answer-lookup :
      (now later : ℕ) (key k : String) (c : InMemoryCache) (value : Json)
      → answer later k (lookup now key c).1 ≡ some value
      → answer later k c ≡ some value
  unfolding lookup
  answer-lookup now later key k c value h = elim (Option-cases (Dict.get key c.store)) [
    | inl e ↦ ground (arith, e, h)
    | inr (v, e) ↦ ground (arith, get-pop key k c.store, e, str_eq_iff key k, h)
  ]

  -- A response that the cache gives for a request was stored, no longer than ttl before, for a request
  -- that agrees with it in all of the twelve fields, provided that the digest tells them apart.
  pub answers_alike :
      (ttl later : ℕ) (r : ChatCompletionRequest) (value : Json) (us : List Use)
      → Distinguished r us
      → answer later (build_cache_key digest r) (cache_after ttl us) ≡ some value
      → (now : ℕ) × (q : ChatCompletionRequest) × In (stored now q value) us
        × Agree q r
        × (later ≤ now + ttl)
  unfolding build_cache_key
  answers_alike ttl later r value [] apart h =
      absurd (unfold lookup in unfold new_cache in unfold Dict.get in cc)
  answers_alike ttl later r value (looked now q ∷ us) apart h =
      let (t, p, mem, same, le) = answers_alike ttl later r value us apart (
        answer-lookup now later (build_cache_key digest q) (build_cache_key digest r)
          (cache_after ttl us) value h) in
      (t, p, inr mem, same, le)
  answers_alike ttl later r value (stored now q given ∷ us) apart h =
      let key = build_cache_key digest q in
      let k = build_cache_key digest r in
      let c = cache_after ttl us in
      elim (Bool-cases (str_eq key k)) [
        | inr other ↦
            let (t, p, mem, same, le) =
              answers_alike ttl later r value us apart.1
                (ground (arith, lookup-store_value now later key k given c, other, h)) in
            (t, p, inr mem, same, le)
        | inl alike ↦ (
          now,
          q,
          inl (
              ap (λ v. stored now q v)
                (ground (arith, lookup-store_value now later key k given c, alike, h))),
          relevant-Agree q r (apart.0 ((str_eq_iff key k).0 alike)),
          ground (arith, lookup-store_value now later key k given c, alike, h, ttl_of ttl us),
        )
      ]
