-- ===== src/Api/Completions.antt =====
-- POST /v1/chat/completions of app/api/chat.py as a client calls it: the key, the body, the endpoint. That
-- FastAPI resolves the dependency, and then validates the body, is its documented order.
use noxis_api_provider.Prelude.{ℕ, String, Option, none, some, List, []}
use noxis_api_provider.Float.{Float}
use noxis_api_provider.Json.{Json}
use noxis_api_provider.Schemas.{ChatCompletionRequest}
use noxis_api_provider.Schemas.Parse.{Pydantic, parse_request}
use noxis_api_provider.Errors.{service_unavailable_error}
use noxis_api_provider.Provider.{ProviderApiError}
use noxis_api_provider.Security.{Text, Result, accepted, refused}
use noxis_api_provider.GatewayRateLimiter.{GatewayRateLimiter}
use noxis_api_provider.CircuitBreaker.{Random}
use noxis_api_provider.Adapter.{Python, HttpRequest}
use noxis_api_provider.Scheduler.{Shared}
use noxis_api_provider.Streaming
use noxis_api_provider.Cache.{ResponseCache}
use noxis_api_provider.Deps.{authenticate}
use noxis_api_provider.Chat.State.{Desk}
use noxis_api_provider.Chat.Exchange
use noxis_api_provider.Chat.Exchange.{Library, World, Reply}
use noxis_api_provider.Chat.{chat_completions}
use noxis_api_provider.App.{App, limits_of}
use noxis_api_provider.App.Http.{Response, Ended, answered, raised, crashed, serve}

-- The two messages that this endpoint does not make: of a body that pydantic refuses, and of
-- ServiceUnavailableError, which names the last error.
pub record Messages : Type 0 where
  pub unprocessable : Json
  pub unavailable : Option ProviderApiError → String

-- How a call ends, and what it leaves.
pub record Visit {ℓ} (F : Type ℓ) (C : Type 0) : Type ℓ where
  pub ended : Ended
  pub desk : Desk F C
  pub state : Shared F
  pub sent : List HttpRequest
  pub limiter : GatewayRateLimiter

-- FastAPI's answer to a request that is not valid.
unfoldable pub unprocessable_answer : Messages → Response
unprocessable_answer m = record { status_code = 422; headers = []; content = m.unprocessable }

-- Of a stream only the head.
unfoldable pub ended_by : Library → Messages → Reply → Ended
unfolding service_unavailable_error
ended_by lib m (Exchange.completion r) =
    answered (record { status_code = 200; headers = []; content = lib.dump r })
ended_by lib m (Exchange.refused e) = raised e
ended_by lib m (Exchange.unavailable last) = raised (service_unavailable_error (m.unavailable last))
ended_by lib m Exchange.crashed = crashed ""
ended_by lib m (Exchange.stream events fails) =
    answered (record { status_code = 200; headers = []; content = Json.null })

module _ {ℓ} {F : Type ℓ} {C : Type 0} ⦃f : Float F⦄ ⦃k : ResponseCache C⦄ (lib : Library)
    (py : Python) (rnd : Random) (pyd : Pydantic) (m : Messages) where
  -- What a call that goes no further leaves.
  unfoldable pub turned_away : App F C → Ended → GatewayRateLimiter → Visit F C
  turned_away app e g = record {
    ended = e;
    desk = app.desk;
    state = app.shared;
    sent = [];
    limiter = g;
  }

  -- The endpoint, for a key and a request.
  unfoldable pub visited :
      World F C
      → (ℕ → Streaming.Round F)
      → App F C
      → String
      → GatewayRateLimiter
      → ChatCompletionRequest
      → Visit F C
  unfolding ended_by
  visited w streams app key_id g r =
      let a =
        chat_completions lib py rnd app.scheduler (limits_of app.settings) w streams key_id r
          app.shared app.desk in
      record {
        ended = ended_by lib m a.reply;
        desk = a.desk;
        state = a.state;
        sent = a.sent;
        limiter = g;
      }

  unfoldable pub after_key :
      World F C
      → (ℕ → Streaming.Round F)
      → App F C
      → Json
      → Result String
      → GatewayRateLimiter
      → Visit F C
  unfolding turned_away visited unprocessable_answer
  after_key w streams app body (refused e) g = turned_away app (raised e) g
  after_key w streams app body (accepted key_id) g = elim (parse_request pyd body) [
    | none ↦ turned_away app (answered (unprocessable_answer m)) g
    | some r ↦ visited w streams app key_id g r
  ]

  -- The whole call.
  unfoldable pub post :
      Text → ℕ → World F C → (ℕ → Streaming.Round F) → Option String → Json → App F C → Visit F C
  unfolding after_key
  post text now w streams header body app =
      let (key, g) =
        authenticate text now header app.authenticator app.settings.allow_unauthenticated
          app.gateway_limiter in
      after_key w streams app body key g

  -- What the client gets.
  unfoldable pub respond : Option String → String → Visit F C → Response
  respond given new_id v = serve given new_id v.ended
