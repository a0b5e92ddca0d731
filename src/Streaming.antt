-- ===== src/Streaming.antt =====
-- The streaming path: `stream_completion` of app/providers/openai_compatible.py and `execute_stream` of
-- app/core/scheduler.py. A client that leaves at a chunk raises there, in `execute_stream`, and leaves the state
-- that an upstream leaves which breaks off after that chunk.
pub mod Rounds
pub mod OneProvider
pub mod Slots
pub mod Tests
use noxis_api_provider.Prelude.{
  ℕ, zero, suc, ◌+◌, String, Bool, true, false, not, ◌||◌, Option, none, some, List, [], ◌∷◌, ◌++◌,
  map, leb, ◌==◌, str_eq, if◌then◌else◌,
}
use noxis_api_provider.Float.{Float}
use noxis_api_provider.Json.{Json}
use noxis_api_provider.Schemas.{ChatCompletionRequest}
use noxis_api_provider.Provider.{ProviderApiError, find, is_empty}
use noxis_api_provider.RateLimiter.{acquire, release, record_429}
use noxis_api_provider.RateLimiter
use noxis_api_provider.CircuitBreaker.{Random, record_failure, backoff_delay}
use noxis_api_provider.Router.{RoutingDecision}
use noxis_api_provider.Adapter.{
  Python, HttpRequest, HttpResponse, Outcome, returned, failed, crashed, take_chars, drop_chars,
  status_error, transport_error, stream_request,
}
use noxis_api_provider.Scheduler.{
  Shared, Scheduler, with_limiter, with_provider, on_success, eligible_decisions,
}

-- How the upstream's side of a stream ends.
pub data StreamEnd : Type 0 where
  finished : StreamEnd
  timed_out connect_failed : String → StreamEnd
  broke : StreamEnd

-- A response that is read line by line; the head has the body of an error.
pub record Opened : Type 0 where
  pub head : HttpResponse
  pub lines : List String
  pub end : StreamEnd

pub data StreamAnswer : Type 0 where
  unopened : StreamEnd → StreamAnswer
  opened : Opened → StreamAnswer

-- What a line means: nothing, the end of the stream, or a chunk.
pub data Line : Type 0 where
  skipped over : Line
  chunk : Json → Line

unfoldable pub parse_line : Python → String → Line
parse_line py line =
    if str_eq line ""
    then skipped
    else if not (str_eq (take_chars 5 line) "data:")
    then skipped
    else let data_str = py.strip (drop_chars 5 line) in
      if str_eq data_str "[DONE]"
      then over
      else elim (py.loads data_str) [ none ↦ skipped | some j ↦ chunk j ]

-- The chunks that are yielded, and whether the end marker came.
unfoldable pub chunks_of : Python → List String → List Json × Bool
unfolding parse_line
chunks_of py [] = ([], false)
chunks_of py (line ∷ lines) =
    let (rest, stopped) = chunks_of py lines in
    elim (parse_line py line) [
      | skipped ↦ (rest, stopped)
      | over ↦ ([], true)
      | chunk j ↦ (j ∷ rest, stopped)
    ]

unfoldable pub end_of : String → StreamEnd → Outcome Unit
end_of name finished = returned tt
end_of name (timed_out text) = failed (transport_error 504 "Timeout streaming from " name text)
end_of name (connect_failed text) = failed (transport_error 502 "Connection error to " name text)
end_of name broke = crashed

-- The chunks that are yielded, and how the iteration ends.
unfoldable pub stream_completion : Python → String → StreamAnswer → List Json × Outcome Unit
unfolding chunks_of end_of
stream_completion py name (unopened e) = ([], end_of name e)
stream_completion py name (opened o) = elim (status_error py o.head) [
  | some e ↦ ([], failed e)
  | none ↦
      let (chunks, stopped) = chunks_of py o.lines in
      (chunks, if stopped then returned tt else end_of name o.end)
]

-- One round of the loop as the world has it; other tasks run while chunks are awaited or sent on.
pub record Round {ℓ} (F : Type ℓ) : Type ℓ where
  pub started : ℕ
  pub answer : HttpRequest → StreamAnswer
  pub elapsed_ms : F
  pub ended : ℕ
  pub during_stream : Shared F → Shared F
  pub during_sleep : ℕ → Shared F → Shared F

-- The lines of a response up to its chunk k.
unfoldable pub lines_to : Python → ℕ → List String → List String
unfolding parse_line
lines_to py zero lines = []
lines_to py (suc k) [] = []
lines_to py (suc k) (line ∷ lines) =
    let taken = lines_to py k lines in
    let others = lines_to py (suc k) lines in
    elim (parse_line py line) [ chunk j ↦ line ∷ taken | _ ↦ line ∷ others ]

-- What `execute_stream` sees of an answer where its consumer leaves it after chunk k: GeneratorExit at that
-- `yield`, which no handler catches, as after an answer that breaks off there.
unfoldable pub left_answer : Python → ℕ → StreamAnswer → StreamAnswer
unfolding lines_to
left_answer py k (unopened e) = unopened e
left_answer py k (opened o) =
    opened (record { head = o.head; lines = lines_to py k o.lines; end = broke })

unfoldable pub left_round {ℓ} : {F : Type ℓ} → Python → ℕ → Round F → Round F
unfolding left_answer
left_round py k round = record round { answer = λ q. left_answer py k (round.answer q) }

-- The end of the stream: complete, ProviderAPIError raised, ServiceUnavailableError, or another exception.
pub data StreamVerdict : Type 0 where
  completed : StreamVerdict
  raised : ProviderApiError → StreamVerdict
  service_unavailable : Option ProviderApiError → StreamVerdict
  propagated : StreamVerdict

-- What the client gets, each chunk with its provider, and what is left.
pub record StreamTrace {ℓ} (F : Type ℓ) : Type ℓ where
  pub chunks : List (Json × String)
  pub verdict : StreamVerdict
  pub state : Shared F

abbrev pub tagged : String → List Json → List (Json × String)
tagged name = map λ j. (j, name)

module _ {ℓ} {F : Type ℓ} where
  -- The bookkeeping of a ProviderAPIError; unlike `execute` it leaves the health alone.
  unfoldable pub note_failure : Scheduler → ℕ → String → ProviderApiError → Shared F → Shared F
  unfolding with_limiter with_provider
  note_failure c now name e s =
      let s₁ = with_limiter (RateLimiter.record_failure name) s in
      let s₂ =
        if e.status_code == 429 then with_limiter (record_429 now name e.retry_after) s₁ else s₁ in
      with_provider name (record_failure c.breaker now e.retryable) s₂

module _ {ℓ} {F : Type ℓ} ⦃f : Float F⦄ (py : Python) (rnd : Random) (c : Scheduler) where
  unfoldable pub stream_from :
      ChatCompletionRequest → Round F → RoutingDecision F → Shared F → List Json × Outcome Unit
  unfolding stream_completion
  stream_from r round d s = elim (find d.provider s.registry.providers) [
    | none ↦ ([], crashed)
    | some p ↦
        stream_completion py p.name (round.answer (stream_request p (record r { model = d.model })))
  ]

  -- The loop of `execute_stream`; round `attempts` of the world is the one that the loop has reached.
  unfoldable pub stream_all :
      ChatCompletionRequest
      → (ℕ → Round F)
      → List (RoutingDecision F)
      → ℕ
      → Option ProviderApiError
      → Shared F
      → StreamTrace F
  unfolding with_limiter note_failure
  stream_all r world [] attempts last s = record {
    chunks = [];
    verdict = service_unavailable last;
    state = s;
  }
  stream_all r world (d ∷ ds) attempts last s =
      let round = world attempts in
      let held = with_limiter (acquire round.started d.provider) s in
      let (chunks, outcome) = stream_from r round d held in
      let s' = round.during_stream held in
      let tried : StreamTrace F = elim outcome [
        | returned ok ↦ record {
          chunks = tagged d.provider chunks;
          verdict = completed;
          state = with_limiter (release d.provider) (on_success d.provider round.elapsed_ms s');
        }
        | crashed ↦ record {
          chunks = tagged d.provider chunks;
          verdict = propagated;
          state = with_limiter (release d.provider) s';
        }
        | failed e ↦
            let s₁ = note_failure c round.ended d.provider e s' in
            let delay =
              backoff_delay rnd (attempts + 1) c.backoff_base c.backoff_cap e.retry_after in
            let rest =
              stream_all r world ds (attempts + 1) (some e)
                (with_limiter (release d.provider) (round.during_sleep delay s₁)) in
            if not (is_empty chunks) || not e.retryable
            then record {
              chunks = tagged d.provider chunks;
              verdict = raised e;
              state = with_limiter (release d.provider) s₁;
            }
            else record rest { chunks = tagged d.provider chunks ++ rest.chunks }
      ] in
      if leb c.max_retries attempts
      then record { chunks = []; verdict = service_unavailable last; state = s }
      else tried

  -- Scheduler.execute_stream, called at a time.
  unfoldable pub execute_stream :
      ℕ → ChatCompletionRequest → (ℕ → Round F) → Shared F → StreamTrace F
  execute_stream now r world s =
      let (decisions, s') = eligible_decisions c.breaker now r s in
      stream_all r world decisions 0 none s'
