-- ===== src/Chat/Caching.antt =====
-- What the cache does for the endpoint of app/api/chat.py: the answer to a request that is like one
-- answered before.
use noxis_api_provider.Prelude.{
  ℕ, ◌+◌, ◌≤◌, String, ◌≡◌, ◌≢◌, refl, ap, true, false, ◌<◌, subst, ◌∙◌, ◌>>=◌, Option, none, some,
  [], inl, inr, Bool-cases, Option-cases, is_negative, arith,
}
use noxis_api_provider.Float.{Float}
use noxis_api_provider.Json.{Json}
use noxis_api_provider.Schemas.{ChatCompletionRequest}
use noxis_api_provider.Provider.{ProviderResult}
use noxis_api_provider.CircuitBreaker.{Random}
use noxis_api_provider.Adapter.{Python}
use noxis_api_provider.Cache.{ResponseCache}
use noxis_api_provider.Cache.Lookup.{Serves}
use noxis_api_provider.CacheKey.{relevant, build_cache_key}
use noxis_api_provider.Scheduler.{
  Shared, Scheduler, Verdict, served, service_unavailable, propagated, execute,
}
use noxis_api_provider.Chat.Normalize.{ChatCompletionResponse, normalize_chat_response}
use noxis_api_provider.Chat.State.{Desk, measure}
use noxis_api_provider.Chat.Exchange.{Library, World, Answer, completion}
use noxis_api_provider.Chat.Sync.{
  hit, look_up, store, finish, book, after_served, after_execute, after_look_up, ask, sync_response,
}

hit_value :
    (found : Option (Option Json)) (v : Json)
    → v ≢ Json.null
    → found ≡ some (some v)
    → (found >>= λ x. some (hit x)) ≡ some (some v)
unfolding hit
hit_value found Json.null h e = absurd (h refl)
hit_value found v h e = rw (e, hit) refl

module _ {C : Type 0} ⦃k : ResponseCache C⦄ where
  -- The last thing written to a cache was this response, at this time.
  abbrev StoredLast : Library → ℕ → ChatCompletionRequest → ChatCompletionResponse → C → Type 0
  StoredLast lib now r response c =
      (b : C) × ((k.set now (build_cache_key lib.digest r) (lib.dump response) b).0 ≡ false)
      × (c ≡ (k.set now (build_cache_key lib.digest r) (lib.dump response) b).1)

module _ {ℓ} {F : Type ℓ} {C : Type 0} ⦃k : ResponseCache C⦄ where
  -- Within ttl of that, a request with the same twelve fields finds the response.
  look_up-StoredLast :
      (lib : Library) (now later : ℕ) (r r' : ChatCompletionRequest)
      (response : ChatCompletionResponse) (d : Desk F C)
      → Serves k (lib.dump response)
      → StoredLast lib now r response d.cache
      → relevant r' ≡ relevant r
      → lib.dump response ≢ Json.null
      → now ≤ later
      → later < now + k.ttl_of d.cache
      → (look_up lib true later r' d).0 ≡ some (some (lib.dump response))
  unfolding look_up build_cache_key
  look_up-StoredLast lib now later r r' response d serves (b, ok, e) same dumps le lt =
      let key = build_cache_key lib.digest r in
      let within : later < now + k.ttl_of b =
        omega (arith, lt, ap k.ttl_of e, serves.kept now key b) in
      let found = serves.found now later key b le within ok in
      let alike : (k.get later (build_cache_key lib.digest r') d.cache).0
          ≡ some (some (lib.dump response)) =
        ap (λ c. (k.get later (build_cache_key lib.digest r') c).0) e
        ∙ ap (λ x. (k.get later (lib.digest x) (k.set now key (lib.dump response) b).1).0) same
        ∙ found in
      hit_value (k.get later (build_cache_key lib.digest r') d.cache).0 (lib.dump response) dumps
        alike

  -- An answer that is given has been stored, if it is given by way of the cache's write.
  finish-StoredLast :
      (lib : Library) (w : World F C) (r : ChatCompletionRequest)
      (given response : ChatCompletionResponse) (d : Desk F C)
      → (finish lib w true r given d).0 ≡ completion response
      → StoredLast lib w.stored_at r response (finish lib w true r given d).1.cache
  unfolding finish store
  finish-StoredLast lib w r given response d =
      let key = build_cache_key lib.digest r in
      elim (Bool-cases (k.set w.stored_at key (lib.dump given) d.cache).0) [
        | inl e ↦ rw (e, finish) (λ q. absurd cc)
        | inr e ↦
            rw (e, finish)
              (λ q.
                let same : given ≡ response = cc in
                subst
                  (λ x.
                    StoredLast lib w.stored_at r x
                      (k.set w.stored_at key (lib.dump given) d.cache).1)
                  same (d.cache, e, refl))
      ]

module _ {ℓ} {F : Type ℓ} {C : Type 0} ⦃f : Float F⦄ ⦃k : ResponseCache C⦄ where
  after_served-StoredLast :
      (lib : Library) (w : World F C) (key_id : String) (r : ChatCompletionRequest)
      (result : ProviderResult) (name : String) (given response : ChatCompletionResponse)
      (d : Desk F C)
      → (after_served lib w true key_id r result name given d).0 ≡ completion response
      → StoredLast lib w.stored_at r response
          (after_served lib w true key_id r result name given d).1.cache
  unfolding after_served
  after_served-StoredLast lib w key_id r result name given response d =
      elim (Bool-cases (is_negative given.usage.prompt_tokens)) [
        | inl e ↦ rw (e, after_served) (λ q. absurd cc)
        | inr e ↦ elim (Bool-cases (is_negative given.usage.completion_tokens)) [
          | inl g ↦ rw (e, g, after_served) (λ q. absurd cc)
          | inr g ↦
              rw (e, g, after_served)
                (finish-StoredLast lib w r given response (book w key_id r result name given d))
        ]
      ]

  after_execute-StoredLast :
      (lib : Library) (w : World F C) (key_id : String) (r : ChatCompletionRequest) (v : Verdict)
      (response : ChatCompletionResponse) (d : Desk F C)
      → (after_execute lib w true key_id r v d).0 ≡ completion response
      → StoredLast lib w.stored_at r response (after_execute lib w true key_id r v d).1.cache
  unfolding after_execute
  after_execute-StoredLast lib w key_id r (served result name) response d =
      elim (Option-cases
        (normalize_chat_response lib.values w.new_id w.created result.raw r.model name)) [
          | inl e ↦ rw (e, after_execute) (λ q. absurd cc)
          | inr (given, e) ↦
              rw (e, after_execute)
                (after_served-StoredLast lib w key_id r result name given response d)
        ]
  after_execute-StoredLast lib w key_id r (service_unavailable last) response d = λ q. absurd cc
  after_execute-StoredLast lib w key_id r propagated response d = λ q. absurd cc

module _ {ℓ} {F : Type ℓ} {C : Type 0} where
  -- What the endpoint does with an answer of the cache.
  abbrev pub Reused : Answer F C → ChatCompletionResponse → Shared F → Desk F C → Type ℓ
  Reused a response s d =
      (a.reply ≡ completion response) × (a.sent ≡ []) × (a.state ≡ s) × (a.desk.rows ≡ d.rows)

module _ {ℓ} {F : Type ℓ} {C : Type 0} ⦃f : Float F⦄ ⦃k : ResponseCache C⦄ (lib : Library)
    (py : Python) (rnd : Random) (c : Scheduler) where
  sync_response-StoredLast :
      (w : World F C) (key_id : String) (r : ChatCompletionRequest) (s : Shared F) (d : Desk F C)
      (response : ChatCompletionResponse)
      → (look_up lib true w.looked_at r d).0 ≡ some none
      → (sync_response lib py rnd c w true key_id r s d).reply ≡ completion response
      → StoredLast lib w.stored_at r response
          (sync_response lib py rnd c w true key_id r s d).desk.cache
  unfolding sync_response after_look_up ask
  sync_response-StoredLast w key_id r s d response misses =
      rw (misses, sync_response)
        (after_execute-StoredLast lib w key_id r (execute py rnd c w.called_at r w.rounds s).verdict
          response (w.meanwhile (look_up lib true w.looked_at r d).1))

  sync_response-Reused :
      (w : World F C) (key_id : String) (r : ChatCompletionRequest) (s : Shared F) (d : Desk F C)
      (v : Json) (response : ChatCompletionResponse)
      → (look_up lib true w.looked_at r d).0 ≡ some (some v)
      → lib.load v ≡ some response
      → Reused (sync_response lib py rnd c w true key_id r s d) response s d
  unfolding sync_response after_look_up look_up measure
  sync_response-Reused w key_id r s d v response found loads =
      rw (found, loads, sync_response) (refl, refl, refl, refl)

  -- With the cache on, be it in memory or in Redis, where it serves what was written and the schema reads the
  -- answer back from its dump: if a first request was not answered from the cache, a later one that finds
  -- this cache, before its ttl is over, and agrees on the twelve fields of the key, whatever its n,
  -- logit_bias or user are, gets the same answer: nothing is sent, no state of a provider changes, no row
  -- is written.
  pub sync_response-repeated :
      (w : World F C) (key_id : String) (r : ChatCompletionRequest) (s : Shared F) (d : Desk F C)
      (response : ChatCompletionResponse) (w' : World F C) (key_id' : String)
      (r' : ChatCompletionRequest) (s' : Shared F) (d' : Desk F C)
      → (look_up lib true w.looked_at r d).0 ≡ some none
      → (sync_response lib py rnd c w true key_id r s d).reply ≡ completion response
      → Serves k (lib.dump response)
      → lib.load (lib.dump response) ≡ some response
      → lib.dump response ≢ Json.null
      → relevant r' ≡ relevant r
      → d'.cache ≡ (sync_response lib py rnd c w true key_id r s d).desk.cache
      → w.stored_at ≤ w'.looked_at
      → w'.looked_at < w.stored_at + k.ttl_of d'.cache
      → Reused (sync_response lib py rnd c w' true key_id' r' s' d') response s' d'
  sync_response-repeated w key_id r s d response w' key_id' r' s' d' misses given serves loads dumps
        same cache le lt =
      let last = sync_response-StoredLast w key_id r s d response misses given in
      sync_response-Reused w' key_id' r' s' d' (lib.dump response) response
        (look_up-StoredLast lib w.stored_at w'.looked_at r r' response d' serves (rw cache last)
          same dumps le lt)
        loads
