-- ===== src/Usage/Tests.antt =====
-- The summary of app/core/usage.py at a concrete input.
use noxis_api_provider.Prelude.{
  ◌≡◌, refl, some, none, false, pos, List, [], ◌∷◌, ◌++◌, ◌-◌, ◌<◌, length, arith,
}
use noxis_api_provider.Float.Milli.{Milli, milli_float}
use noxis_api_provider.Dict
use noxis_api_provider.Usage.{UsageRecord, summary, tally, first_of}
use noxis_api_provider.Usage.Newest.{CountsBut}
use noxis_api_provider.Usage.Recorded.{summary-newest}
use noxis_api_provider.Usage.Sample.{select, select-IsNewest}

abbrev succeeded : UsageRecord Milli
succeeded = record {
  request_id = "1";
  provider = "groq";
  model = "m";
  status = "success";
  error_code = none;
  timestamp = 5;
  gateway_key_id = "k";
  requested_model = "m";
  prompt_tokens = pos 5;
  completion_tokens = pos 7;
  total_tokens = pos 12;
  streamed = false;
  latency_ms = 30_000;
}

abbrev failed : UsageRecord Milli
failed = record {
  request_id = "2";
  provider = "none";
  model = "none";
  status = "error";
  error_code = some "NOXIS_ALL_PROVIDERS_FAILED";
  timestamp = 4;
  gateway_key_id = "k";
  requested_model = "m";
  prompt_tokens = pos 0;
  completion_tokens = pos 0;
  total_tokens = pos 0;
  streamed = false;
  latency_ms = 0;
}

abbrev rows : List (UsageRecord Milli)
rows = succeeded ∷ failed ∷ []

-- The row that failed is in the table, the one that succeeded is added.
abbrev before : List (UsageRecord Milli)
before = failed ∷ []

summary-newest_example :
    let s = summary (select 1 (before ++ succeeded ∷ [])) in
    let left_out = 2 - s.sample_size in
    (s.sample_size ≡ 1)
    × (0 < Dict.get_or "groq" 0 s.by_provider)
    × CountsBut left_out s.success 1
    × CountsBut left_out (Dict.get_or "groq" 0 s.by_provider) 1
    × CountsBut left_out (Dict.get_or "groq" 0 s.by_model) 0
summary-newest_example =
    summary-newest select select-IsNewest 1 before succeeded "groq" (omega arith) (omega arith, tt)

rows-summary :
    ((summary rows).by_provider ≡ ("groq", 1) ∷ ("none", 1) ∷ [])
    × ((summary rows).success ≡ 1)
    × ((summary rows).errors ≡ 1)
    × (length (summary rows).recent_errors ≡ 1)
unfolding summary tally first_of Dict.set Dict.get_or
rows-summary = (refl, refl, refl, refl)
