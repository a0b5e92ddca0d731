-- ===== src/Chat/Sync.antt =====
-- app/api/chat.py, `_sync_response`: the cache, the scheduler, and the bookkeeping of what it gave. The
-- branch for ProviderAPIError is left out: `execute` raises none.
use noxis_api_provider.Prelude.{
  ℕ, String, Bool, false, Option, none, some, [], ◌∷◌, ◌++◌, pos, is_negative, ◌>>=◌, if◌then◌else◌,
}
use noxis_api_provider.Float.{Float, nought}
use noxis_api_provider.Json.{Json}
use noxis_api_provider.Schemas.{ChatCompletionRequest}
use noxis_api_provider.Provider.{ProviderResult}
use noxis_api_provider.Cache.{ResponseCache}
use noxis_api_provider.CacheKey.{build_cache_key}
use noxis_api_provider.CircuitBreaker.{Random}
use noxis_api_provider.Adapter.{Python}
use noxis_api_provider.Usage.{UsageRecord}
use noxis_api_provider.Scheduler.{
  Shared, Scheduler, Verdict, served, service_unavailable, propagated, execute,
}
use noxis_api_provider.Chat.Normalize.{ChatCompletionResponse, normalize_chat_response}
use noxis_api_provider.Chat.Exchange.{
  Reply, completion, unavailable, crashed, Library, World, Answer, all_failed,
}
use noxis_api_provider.Chat.State.{
  Desk, requests_total, request_errors_total, provider_requests_total, provider_latency,
  tokens_total, measure, write_row,
}

-- The cache's answer; a value of None is no answer.
unfoldable pub hit : Option Json → Option Json
hit none = none
hit (some Json.null) = none
hit (some v) = some v

module _ {ℓ} {F : Type ℓ} {C : Type 0} ⦃k : ResponseCache C⦄ where
  -- The key and the lookup, where caching is on; `none` is an exception.
  unfoldable pub look_up :
      Library → Bool → ℕ → ChatCompletionRequest → Desk F C → Option (Option Json) × Desk F C
  unfolding hit
  look_up lib enabled now r d =
      if enabled
      then (let (found, c) = k.get now (build_cache_key lib.digest r) d.cache in
          (found >>= λ v. some (hit v), record d { cache = c }))
      else (some none, d)

  -- The write of the answer, where caching is on; `true` is an exception.
  unfoldable pub store :
      Library
      → Bool
      → ℕ
      → ChatCompletionRequest
      → ChatCompletionResponse
      → Desk F C
      → Bool × Desk F C
  store lib enabled now r response d =
      if enabled
      then (let (fails, c) = k.set now (build_cache_key lib.digest r) (lib.dump response) d.cache in
          (fails, record d { cache = c }))
      else (false, d)

  -- The write to the cache comes last: an exception of it takes the answer away.
  unfoldable pub finish :
      Library
      → World F C
      → Bool
      → ChatCompletionRequest
      → ChatCompletionResponse
      → Desk F C
      → Reply × Desk F C
  unfolding store
  finish lib w enabled r response d =
      let (fails, d') = store lib enabled w.stored_at r response d in
      (if fails then crashed else completion response, d')

module _ {ℓ} {F : Type ℓ} {C : Type 0} ⦃f : Float F⦄ where
  unfoldable pub success_row :
      World F C
      → String
      → ChatCompletionRequest
      → ProviderResult
      → String
      → ChatCompletionResponse
      → UsageRecord F
  success_row w key_id r result provider_name response = record {
    request_id = w.request_id;
    timestamp = w.written_at;
    gateway_key_id = key_id;
    provider = provider_name;
    model = response.model;
    requested_model = r.model;
    latency_ms = f.ratio result.latency_ms 1000;
    status = "success";
    error_code = none;
    prompt_tokens = response.usage.prompt_tokens;
    completion_tokens = response.usage.completion_tokens;
    total_tokens = response.usage.total_tokens;
    streamed = false;
  }

  unfoldable pub plain_row :
      World F C
      → String
      → ChatCompletionRequest
      → (provider model status : String) → Option String
      → Bool
      → UsageRecord F
  plain_row w key_id r provider model status code streamed = record {
    request_id = w.request_id;
    timestamp = w.written_at;
    gateway_key_id = key_id;
    provider = provider;
    model = model;
    requested_model = r.model;
    latency_ms = nought;
    status = status;
    error_code = code;
    prompt_tokens = pos 0;
    completion_tokens = pos 0;
    total_tokens = pos 0;
    streamed = streamed;
  }

  -- The counters and the row of an answer.
  unfoldable pub book :
      World F C
      → String
      → ChatCompletionRequest
      → ProviderResult
      → String
      → ChatCompletionResponse
      → Desk F C
      → Desk F C
  unfolding success_row measure write_row
  book w key_id r result name response d =
      let told =
        provider_requests_total name response.model
        ∷ provider_latency name result.latency_ms
        ∷ tokens_total name "prompt" response.usage.prompt_tokens
        ∷ tokens_total name "completion" response.usage.completion_tokens
        ∷ requests_total "chat_completions" "success"
        ∷ [] in
      w.writing (write_row (success_row w key_id r result name response) (measure told d))

module _ {ℓ} {F : Type ℓ} {C : Type 0} ⦃f : Float F⦄ ⦃k : ResponseCache C⦄ where
  -- A counter takes no negative amount: `inc` then raises, and nothing after it is done.
  unfoldable pub after_served :
      Library
      → World F C
      → Bool
      → String
      → ChatCompletionRequest
      → ProviderResult
      → String
      → ChatCompletionResponse
      → Desk F C
      → Reply × Desk F C
  unfolding measure finish book
  after_served lib w enabled key_id r result name response d =
      let asked =
        provider_requests_total name response.model
        ∷ provider_latency name result.latency_ms
        ∷ [] in
      let prompt = tokens_total name "prompt" response.usage.prompt_tokens in
      if is_negative response.usage.prompt_tokens
      then (crashed, measure asked d)
      else if is_negative response.usage.completion_tokens
      then (crashed, measure (asked ++ prompt ∷ []) d)
      else finish lib w enabled r response (book w key_id r result name response d)

  -- What is made of the scheduler's answer.
  unfoldable pub after_execute :
      Library
      → World F C
      → Bool
      → String
      → ChatCompletionRequest
      → Verdict
      → Desk F C
      → Reply × Desk F C
  unfolding plain_row measure write_row after_served normalize_chat_response
  after_execute lib w enabled key_id r (served result name) d =
      elim (normalize_chat_response lib.values w.new_id w.created result.raw r.model name) [
        | none ↦ (crashed, d)
        | some response ↦ after_served lib w enabled key_id r result name response d
      ]
  after_execute lib w enabled key_id r (service_unavailable last) d =
      let row = plain_row w key_id r "none" "none" "error" (some all_failed) false in
      (
        unavailable last,
        w.writing
            (write_row row (measure (request_errors_total "chat_completions" all_failed ∷ []) d)),
      )
  after_execute lib w enabled key_id r propagated d = (crashed, d)

module _ {ℓ} {F : Type ℓ} {C : Type 0} ⦃f : Float F⦄ ⦃k : ResponseCache C⦄ (lib : Library)
    (py : Python) (rnd : Random) (c : Scheduler) where
  -- The way through the scheduler.
  unfoldable pub ask :
      World F C → Bool → String → ChatCompletionRequest → Shared F → Desk F C → Answer F C
  ask w enabled key_id r s d =
      let t = execute py rnd c w.called_at r w.rounds s in
      let (reply, desk) = after_execute lib w enabled key_id r t.verdict (w.meanwhile d) in
      record { reply = reply; desk = desk; state = t.state; sent = t.sent }

  -- What follows the lookup: an exception of the cache leaves the endpoint.
  unfoldable pub after_look_up :
      World F C
      → Bool
      → String
      → ChatCompletionRequest
      → Shared F
      → Option (Option Json)
      → Desk F C
      → Answer F C
  unfolding ask measure
  after_look_up w enabled key_id r s none d = record {
    reply = crashed;
    desk = d;
    state = s;
    sent = [];
  }
  after_look_up w enabled key_id r s (some none) d = ask w enabled key_id r s d
  after_look_up w enabled key_id r s (some (some v)) d = record {
    reply = elim (lib.load v) [ none ↦ crashed | some response ↦ completion response ];
    desk = measure (requests_total "chat_completions" "success" ∷ []) d;
    state = s;
    sent = [];
  }

  unfoldable pub sync_response :
      World F C → Bool → String → ChatCompletionRequest → Shared F → Desk F C → Answer F C
  unfolding look_up after_look_up
  sync_response w enabled key_id r s d =
      let (found, d') = look_up lib enabled w.looked_at r d in
      after_look_up w enabled key_id r s found d'
