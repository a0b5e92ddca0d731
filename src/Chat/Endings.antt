-- ===== src/Chat/Endings.antt =====
-- How the event stream of app/api/chat.py ends.
use noxis_api_provider.Prelude.{
  none, some, zero, leb, ℕ, suc, ◌≤◌, String, ◌≡◌, refl, ap, ◌∙◌, Bool, true, false, Option, List,
  [], ◌∷◌, ◌++◌, map, length, inl, inr, Bool-cases, Option-cases, arith,
}
use noxis_api_provider.Float.{Float}
use noxis_api_provider.Json.{Json}
use noxis_api_provider.Schemas.{ChatCompletionRequest}
use noxis_api_provider.Provider.{ProviderApiError}
use noxis_api_provider.CircuitBreaker.{Random}
use noxis_api_provider.Adapter.{Python}
use noxis_api_provider.Scheduler.{Shared, Scheduler}
use noxis_api_provider.Streaming
use noxis_api_provider.Streaming.{
  StreamVerdict, completed, raised, service_unavailable, propagated, execute_stream,
}
use noxis_api_provider.Chat.Normalize.{Values, ChatCompletionChunk, normalize_chunk}
use noxis_api_provider.Cache.{ResponseCache}
use noxis_api_provider.Chat.State.{Desk, acquire, leave, measure}
use noxis_api_provider.Chat.Exchange.{
  Event, chunk, finished, no_provider, upstream_failed, Limits, Library, World, stream,
}
use noxis_api_provider.Chat.Events.{Loop, emit, first, cut, leaves_at, close, event_gen}
use noxis_api_provider.Chat.{stream_response}

-- What may follow m events of chunks where the scheduler gave n: one closing event, which tells its
-- verdict, and at which the client may leave, if it reads n + 1 events; or nothing, where an exception
-- (`true`) breaks the stream off, or the client leaves.
pub data Ending (reads : Option ℕ) (n : ℕ) (v : StreamVerdict)
    : ℕ → List Event → Bool → Type 0 where
  is_finished :
      (left : Bool)
      → left ≡ leaves_at reads n
      → v ≡ completed
      → Ending reads n v n (finished ∷ []) left
  is_unavailable :
      (last : Option ProviderApiError) (left : Bool)
      → left ≡ leaves_at reads n
      → v ≡ service_unavailable last
      → Ending reads n v n (no_provider last ∷ []) left
  is_raised :
      (e : ProviderApiError) (left : Bool)
      → left ≡ leaves_at reads n
      → v ≡ raised e
      → Ending reads n v n (upstream_failed e.message ∷ []) left
  breaks : (m : ℕ) → m ≤ n → Ending reads n v m [] true

-- The events of chunks that a loop puts out.
emit-chunks :
    (values : Values) (chat_id model used : String) (raws : List (Json × String))
    → (cs : List ChatCompletionChunk) × ((emit values chat_id model used raws).events
        ≡ map chunk cs)
      × (length cs ≤ length raws)
      × ((emit values chat_id model used raws).broken ≡ false → length cs ≡ length raws)
unfolding emit
emit-chunks values chat_id model used [] = ([], refl, omega arith, λ q. refl)
emit-chunks values chat_id model used ((raw, name) ∷ rest) =
    let (cs, same, le, all) = emit-chunks values chat_id model name rest in
    elim (Option-cases (normalize_chunk values raw chat_id model name)) [
      | inl e ↦ rw (e, emit) ([], refl, omega arith, λ q. absurd cc)
      | inr (c, e) ↦
          rw (e, emit)
            (c ∷ cs, ap (λ x. chunk c ∷ x) same, omega (arith, le), λ q. ap (λ x. suc x) (all q))
    ]

map-first :
    (n : ℕ) (cs : List ChatCompletionChunk) → first n (map chunk cs) ≡ map chunk (first n cs)
unfolding first
map-first zero cs = refl
map-first (suc n) [] = refl
map-first (suc n) (c ∷ cs) = ap (λ x. chunk c ∷ x) (map-first n cs)

length-first : (n : ℕ) (cs : List ChatCompletionChunk) → length (first n cs) ≤ length cs
unfolding first
length-first zero cs = omega arith
length-first (suc n) [] = omega arith
length-first (suc n) (c ∷ cs) = omega (arith, length-first n cs)

-- They stay chunks where the client cuts the loop short.
cut-chunks :
    (reads : Option ℕ) (loop : Loop) (cs : List ChatCompletionChunk) (n : ℕ)
    → loop.events ≡ map chunk cs
    → length cs ≤ n
    → (loop.broken ≡ false → length cs ≡ n)
    → (ds : List ChatCompletionChunk) × ((cut reads loop).events ≡ map chunk ds)
      × (length ds ≤ n)
      × ((cut reads loop).broken ≡ false → length ds ≡ n)
unfolding cut
cut-chunks none loop cs n same le all = (cs, same, le, all)
cut-chunks (some m) loop cs n same le all = elim (Bool-cases (leb m (length loop.events))) [
  | inl e ↦
      rw (e, cut)
        (
          first m cs,
          ap (first m) same ∙ map-first m cs,
          omega (arith, length-first m cs, le),
          λ q. absurd cc,
        )
  | inr e ↦ rw (e, cut) (cs, same, le, all)
]

length-chunks : (cs : List ChatCompletionChunk) → length (map chunk cs) ≡ length cs
length-chunks [] = refl
length-chunks (c ∷ cs) = ap (λ x. suc x) (length-chunks cs)

append-nil : (es : List Event) → es ≡ es ++ []
append-nil [] = refl
append-nil (e ∷ es) = ap (λ x. e ∷ x) (append-nil es)

module _ {ℓ} {F : Type ℓ} {C : Type 0} ⦃f : Float F⦄ where
  close-Ending :
      (w : World F C) (left : Bool) (key_id : String) (r : ChatCompletionRequest) (used : String)
      (v : StreamVerdict) (d : Desk F C) (n : ℕ)
      → left ≡ leaves_at w.reads n
      → Ending w.reads n v n (close w left key_id r used v d).0 (close w left key_id r used v d).1
  unfolding close
  close-Ending w left key_id r used completed d n at = is_finished left at refl
  close-Ending w left key_id r used (service_unavailable last) d n at =
      is_unavailable last left at refl
  close-Ending w left key_id r used (raised e) d n at = is_raised e left at refl
  close-Ending w left key_id r used propagated d n at = breaks n (omega arith)

  event_gen-Ending :
      (w : World F C) (key_id : String) (r : ChatCompletionRequest) (v : StreamVerdict)
      (loop : Loop) (d : Desk F C) (n : ℕ) (cs : List ChatCompletionChunk)
      → loop.events ≡ map chunk cs
      → length cs ≤ n
      → (loop.broken ≡ false → length cs ≡ n)
      → (end : List Event) × ((event_gen w key_id r v loop d).0 ≡ map chunk cs ++ end)
        × Ending w.reads n v (length cs) end (event_gen w key_id r v loop d).1
  unfolding event_gen
  event_gen-Ending w key_id r v loop d n cs same le all = elim (Bool-cases loop.broken) [
    | inl e ↦ rw (e, event_gen) ([], same ∙ append-nil (map chunk cs), breaks (length cs) le)
    | inr e ↦
        let left = leaves_at w.reads (length loop.events) in
        let last = close w left key_id r loop.provider_used v (measure loop.metrics d) in
        let at : left ≡ leaves_at w.reads n =
          ap (leaves_at w.reads) (ap length same ∙ (length-chunks cs ∙ all e)) in
        rw (e, event_gen)
          (
            last.0,
            ap (λ x. x ++ last.0) same,
            rw (all e)
                (close-Ending w left key_id r loop.provider_used v (measure loop.metrics d) n at),
          )
  ]

module _ {ℓ} {F : Type ℓ} {C : Type 0} ⦃f : Float F⦄ ⦃k : ResponseCache C⦄ where
  -- What the client of a stream reads is some chunks and then, unless an exception breaks the stream off or
  -- the client leaves before, exactly one closing event: the end marker where the scheduler completed,
  -- else the error it ended with. Then there is one event for each chunk of the scheduler; else no more.
  pub stream_response-Ending :
      (lib : Library) (py : Python) (rnd : Random) (c : Scheduler) (limits : Limits) (w : World F C)
      (streams : ℕ → Streaming.Round F) (key_id : String) (r : ChatCompletionRequest) (s : Shared F)
      (d : Desk F C)
      → let t = execute_stream py rnd c w.called_at r streams s in
        (cs : List ChatCompletionChunk) × (end : List Event) × (fails : Bool) × ((stream_response
            lib py rnd c limits w streams key_id r s d).reply
          ≡ stream (map chunk cs ++ end) fails)
        × Ending w.reads (length t.chunks) t.verdict (length cs) end fails
  unfolding stream_response
  stream_response-Ending lib py rnd c limits w streams key_id r s d =
      let t = execute_stream py rnd c w.called_at r streams s in
      let loop = emit lib.values w.new_id r.model "unknown" t.chunks in
      let (all_cs, same, le, all) = emit-chunks lib.values w.new_id r.model "unknown" t.chunks in
      let (cs, same', le', all') = cut-chunks w.reads loop all_cs (length t.chunks) same le all in
      let held = w.meanwhile (acquire (w.waiting (leave d))) in
      let (end, events, ending) =
        event_gen-Ending w key_id r t.verdict (cut w.reads loop) held (length t.chunks) cs same' le'
          all' in
      (cs, end, (event_gen w key_id r t.verdict (cut w.reads loop) held).1, rw events refl, ending)
