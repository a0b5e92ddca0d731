-- ===== src/Chat/Events.antt =====
-- app/api/chat.py, `event_gen` of `_stream_response`: the events of a stream, from the chunks that the
-- scheduler yields and the way in which it ends.
use noxis_api_provider.Prelude.{
  ℕ, zero, suc, length, leb, ◌==◌, String, Bool, true, false, Option, none, some, List, [], ◌∷◌,
  ◌++◌, if◌then◌else◌,
}
use noxis_api_provider.Float.{Float}
use noxis_api_provider.Json.{Json}
use noxis_api_provider.Schemas.{ChatCompletionRequest}
use noxis_api_provider.Streaming.{StreamVerdict, completed, raised, service_unavailable, propagated}
use noxis_api_provider.Chat.Normalize.{Values, normalize_chunk}
use noxis_api_provider.Chat.State.{
  Desk, Metric, requests_total, request_errors_total, provider_requests_total,
  provider_failures_total, measure, write_row,
}
use noxis_api_provider.Chat.Exchange.{
  Event, chunk, finished, no_provider, upstream_failed, World, all_failed,
}
use noxis_api_provider.Chat.Sync.{plain_row}

-- The loop over the chunks: its events and counts, the last provider met, and whether it was left by
-- an exception of `_normalize_chunk`. `taken` chunks have been taken from the scheduler.
pub record Loop : Type 0 where
  pub events : List Event
  pub metrics : List Metric
  pub provider_used : String
  pub broken : Bool
  pub taken : ℕ

unfoldable pub emit : Values → String → String → String → List (Json × String) → Loop
emit values chat_id model used [] = record {
  events = [];
  metrics = [];
  provider_used = used;
  broken = false;
  taken = 0;
}
emit values chat_id model used ((raw, name) ∷ rest) =
    let later = emit values chat_id model name rest in
    elim (normalize_chunk values raw chat_id model name) [
      | none ↦ record { events = []; metrics = []; provider_used = name; broken = true; taken = 1 }
      | some c ↦ record {
        events = chunk c ∷ later.events;
        metrics = provider_requests_total name model ∷ later.metrics;
        provider_used = later.provider_used;
        broken = later.broken;
        taken = suc later.taken;
      }
    ]

unfoldable pub first {ℓ} : {A : Type ℓ} → ℕ → List A → List A
first zero xs = []
first (suc n) [] = []
first (suc n) (x ∷ xs) = x ∷ first n xs

-- The loop where the client goes away: the generator is left at the `yield` of the last event that is read,
-- by GeneratorExit or CancelledError, which no `except` of it catches.
unfoldable pub cut : Option ℕ → Loop → Loop
unfolding first
cut none loop = loop
cut (some n) loop =
    if leb n (length loop.events)
    then record {
      events = first n loop.events;
      metrics = first n loop.metrics;
      provider_used = loop.provider_used;
      broken = true;
      taken = n;
    }
    else loop

-- Whether the client goes away at the event that closes the stream; `n` chunks come before it.
unfoldable pub leaves_at : Option ℕ → ℕ → Bool
leaves_at none n = false
leaves_at (some m) n = m == suc n

-- What follows the loop, by the scheduler's verdict: the last event, if there is one, and the end of the
-- generator, where `true` is an exception that leaves it. What the client leaves at is its last event:
-- the row is not written then.
module _ {ℓ} {F : Type ℓ} {C : Type 0} ⦃f : Float F⦄ where
  unfoldable pub close :
      World F C
      → Bool
      → String
      → ChatCompletionRequest
      → String
      → StreamVerdict
      → Desk F C
      → List Event × Bool × Desk F C
  unfolding measure write_row plain_row
  close w left key_id r used completed d = (
    finished ∷ [],
    left,
    if left
        then d
        else w.writing (
            write_row (plain_row w key_id r used r.model "success" none true)
              (measure (requests_total "chat_completions_stream" "success" ∷ []) d)),
  )
  close w left key_id r used (service_unavailable last) d =
      let d' = measure (request_errors_total "chat_completions_stream" all_failed ∷ []) d in
      (
        no_provider last ∷ [],
        left,
        if left
            then d'
            else w.writing
                (write_row (plain_row w key_id r used r.model "error" (some all_failed) true) d'),
      )
  close w left key_id r used (raised e) d = (
    upstream_failed e.message ∷ [],
    left,
    measure (provider_failures_total used e.status_code ∷ []) d,
  )
  close w left key_id r used propagated d = ([], true, d)

  -- The generator, once it holds its permit, over the loop that the client has cut short or not.
  unfoldable pub event_gen :
      World F C
      → String
      → ChatCompletionRequest
      → StreamVerdict
      → Loop
      → Desk F C
      → List Event × Bool × Desk F C
  unfolding close measure leaves_at
  event_gen w key_id r verdict loop d =
      let d' = measure loop.metrics d in
      let left = leaves_at w.reads (length loop.events) in
      let (last, fails, d'') = close w left key_id r loop.provider_used verdict d' in
      if loop.broken then (loop.events, true, d') else (loop.events ++ last, fails, d'')
