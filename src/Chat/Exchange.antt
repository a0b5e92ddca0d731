-- ===== src/Chat/Exchange.antt =====
-- What goes into and comes out of one request to the endpoint of app/api/chat.py: the settings, what the
-- libraries make of values, the world that it meets, and the answer.
use noxis_api_provider.Prelude.{ℕ, String, Bool, Option, List, ℤ}
use noxis_api_provider.Json.{Json}
use noxis_api_provider.Provider.{ProviderApiError}
use noxis_api_provider.Errors.{NoxisError}
use noxis_api_provider.CacheKey.{Relevant}
use noxis_api_provider.Adapter.{HttpRequest}
use noxis_api_provider.Scheduler.{Shared, Round}
use noxis_api_provider.Chat.Normalize.{Values, ChatCompletionResponse, ChatCompletionChunk}
use noxis_api_provider.Chat.State.{Desk}

-- An event of a stream: a chunk, the end marker, the error of the gateway, or that of an upstream.
pub data Event : Type 0 where
  chunk : ChatCompletionChunk → Event
  finished : Event
  no_provider : Option ProviderApiError → Event
  upstream_failed : (message : String) → Event

-- What the client gets. `unavailable` is ServiceUnavailableError, whose text is made from the last
-- error; `crashed` any other exception; a stream is its events, and whether an exception breaks it off.
pub data Reply : Type 0 where
  completion : ChatCompletionResponse → Reply
  refused : NoxisError → Reply
  unavailable : Option ProviderApiError → Reply
  crashed : Reply
  stream : List Event → Bool → Reply

-- The settings that the endpoint reads.
pub record Limits : Type 0 where
  pub max_request_bytes : ℕ
  pub max_tokens_ceiling : ℕ
  pub cache_enabled : Bool

-- pydantic and json: `dump` and `load` are model_dump and the constructor on keywords, `printed_length` the
-- length of what json.dumps prints.
pub record Library : Type 0 where
  pub values : Values
  pub digest : Relevant → String
  pub dump : ChatCompletionResponse → Json
  pub load : Json → Option ChatCompletionResponse
  pub printed_length : Json → ℕ

-- What the world is to one request: the ids and times that it reads, and what other tasks do while it
-- waits for a permit, for the scheduler, and for the database; and how many events of a stream the client
-- reads before it goes away, where it does not read to the end.
pub record World {ℓ} (F : Type ℓ) (C : Type 0) : Type ℓ where
  pub request_id : String
  pub new_id : String
  pub created : ℤ
  pub looked_at : ℕ
  pub called_at : ℕ
  pub written_at : ℕ
  pub stored_at : ℕ
  pub rounds : ℕ → Round F
  pub waiting : Desk F C → Desk F C
  pub meanwhile : Desk F C → Desk F C
  pub writing : Desk F C → Desk F C
  pub reads : Option ℕ

-- How a request ends, and what it leaves once every generator of it is closed.
pub record Answer {ℓ} (F : Type ℓ) (C : Type 0) : Type ℓ where
  pub reply : Reply
  pub desk : Desk F C
  pub state : Shared F
  pub sent : List HttpRequest

-- The code of ServiceUnavailableError.
abbrev pub all_failed : String
all_failed = "NOXIS_ALL_PROVIDERS_FAILED"
