-- ===== src/Streaming/Tests.antt =====
-- The theorems on streaming, app/core/scheduler.py, at a concrete input: an upstream that breaks off
-- after its first chunk.
use noxis_api_provider.Prelude.{ℕ, ◌≡◌, refl, none, [], ◌∷◌}
use noxis_api_provider.Float.Milli.{Milli, milli_float}
use noxis_api_provider.Router.Slots.{in_use}
use noxis_api_provider.Streaming.{Round, opened, timed_out, execute_stream}
use noxis_api_provider.Streaming.OneProvider.{OneProvider, execute_stream-OneProvider}
use noxis_api_provider.Streaming.Slots.{execute_stream-in_use}
use noxis_api_provider.Samples.{python, highest_draw, scheduler, request, shared}

abbrev pub broken_off : ℕ → Round Milli
broken_off i = record {
  started = 1_000_000;
  answer = λ q. opened (record {
    head = record { status_code = 200; retry_after = none; body = "" };
    lines = "data: null" ∷ [];
    end = timed_out "read timeout";
  });
  elapsed_ms = 20;
  ended = 1_020_000;
  during_stream = λ s. s;
  during_sleep = λ delay s. s;
}

execute_stream-OneProvider_example :
    OneProvider (execute_stream python highest_draw scheduler 5 request broken_off shared)
execute_stream-OneProvider_example =
    execute_stream-OneProvider python highest_draw scheduler 5 request broken_off shared

execute_stream-in_use_example :
    in_use
      (execute_stream python highest_draw scheduler 5 request broken_off shared).state.limiter
      "llm7"
    ≡ in_use shared.limiter "llm7"
execute_stream-in_use_example =
    execute_stream-in_use python highest_draw scheduler 5 request broken_off shared
      (record { stream = λ i s j. refl; sleep = λ i delay s j. refl }) "llm7"
