-- ===== src/Chat.antt =====
-- app/api/chat.py, `chat_completions`: the checks of size, the permit of the semaphore, and the two
-- ways to answer.
pub mod Normalize
pub mod State
pub mod Exchange
pub mod Sync
pub mod Events
pub mod Accounting
pub mod Caching
pub mod Endings
pub mod Logged
pub mod Tasks
pub mod Tests
use Prim.Native.String.{◌++◌ as append}
use noxis_api_provider.Prelude.{
  ℕ, ◌&&◌, not, String, Bool, false, Option, none, some, [], ltb, ◌==◌, if◌then◌else◌,
}
use noxis_api_provider.Float.{Float}
use noxis_api_provider.Schemas.{ChatCompletionRequest}
use noxis_api_provider.Schemas.Dump.{dump_request}
use noxis_api_provider.Errors.{NoxisError, payload_too_large_error, invalid_request_error}
use noxis_api_provider.CircuitBreaker.{Random}
use noxis_api_provider.Adapter.{Python}
use noxis_api_provider.Scheduler.{Shared, Scheduler}
use noxis_api_provider.Streaming
use noxis_api_provider.Streaming.{execute_stream, left_round}
use noxis_api_provider.Cache.{ResponseCache}
use noxis_api_provider.Chat.State.{Desk, enter, leave, acquire, release}
use noxis_api_provider.Chat.Exchange.{Limits, Library, World, Answer, refused, stream}
use noxis_api_provider.Chat.Sync.{sync_response}
use noxis_api_provider.Chat.Events.{emit, cut, event_gen}

-- max_tokens and max_tokens > ceiling
unfoldable pub exceeds : ℕ → Option ℕ → Bool
exceeds ceiling none = false
exceeds ceiling (some n) = not (n == 0) && ltb ceiling n

-- The checks that come before the `try`.
unfoldable pub refusal : Library → Python → Limits → ChatCompletionRequest → Option NoxisError
unfolding exceeds
refusal lib py limits r =
    if ltb limits.max_request_bytes (lib.printed_length (dump_request r))
    then some (payload_too_large_error "Request payload exceeds the configured size limit.")
    else if exceeds limits.max_tokens_ceiling r.max_tokens
    then some (
        invalid_request_error
          (append "max_tokens exceeds the configured ceiling of "
            (append (py.show_int limits.max_tokens_ceiling) "."))
          (some "max_tokens") "NOXIS_INVALID_REQUEST")
    else none

module _ {ℓ} {F : Type ℓ} {C : Type 0} ⦃f : Float F⦄ ⦃k : ResponseCache C⦄ (lib : Library)
    (py : Python) (rnd : Random) (c : Scheduler) (limits : Limits) where
  -- A stream: the endpoint returns at once, and the generator runs after that. The requests that
  -- `execute_stream` sends are not listed. Where the loop is left, so is `execute_stream`, at the chunk
  -- taken last; the event loop closes it then, which gives the slot back.
  unfoldable pub stream_response :
      World F C
      → (ℕ → Streaming.Round F)
      → String
      → ChatCompletionRequest
      → Shared F
      → Desk F C
      → Answer F C
  unfolding acquire release leave left_round
  stream_response w streams key_id r s d =
      let held = acquire (w.waiting (leave d)) in
      let t = execute_stream py rnd c w.called_at r streams s in
      let loop = cut w.reads (emit lib.values w.new_id r.model "unknown" t.chunks) in
      let left =
        execute_stream py rnd c w.called_at r (λ i. left_round py loop.taken (streams i)) s in
      let (events, fails, d') = event_gen w key_id r t.verdict loop (w.meanwhile held) in
      record {
        reply = stream events fails;
        desk = release d';
        state = if loop.broken then left.state else t.state;
        sent = [];
      }

  unfoldable pub sync_within_permit :
      World F C → String → ChatCompletionRequest → Shared F → Desk F C → Answer F C
  unfolding acquire release leave
  sync_within_permit w key_id r s d =
      let a =
        sync_response lib py rnd c w limits.cache_enabled key_id r s (acquire (w.waiting d)) in
      record a { desk = leave (release a.desk) }

  -- The endpoint, for a request that is authenticated as `key_id`.
  unfoldable pub chat_completions :
      World F C
      → (ℕ → Streaming.Round F)
      → String
      → ChatCompletionRequest
      → Shared F
      → Desk F C
      → Answer F C
  unfolding enter refusal
  chat_completions w streams key_id r s d = elim (refusal lib py limits r) [
    | some e ↦ record { reply = refused e; desk = enter d; state = s; sent = [] }
    | none ↦
        if r.stream
        then stream_response w streams key_id r s (enter d)
        else sync_within_permit w key_id r s (enter d)
  ]
