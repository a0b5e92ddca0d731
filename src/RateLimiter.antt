-- ===== src/RateLimiter.antt =====
-- app/core/rate_limiter.py: the usage window of each provider, and the limiter over them. A call
-- takes the value of `time.time()` that it reads.
pub mod Window
pub mod History
pub mod Queries
pub mod Invariant
pub mod Serving
pub mod Log
pub mod Cooldown
pub mod Slots
pub mod Tests
use noxis_api_provider.Prelude.{
  ℕ, ◌+◌, ◌-◌, String, Bool, true, false, Option, none, some, List, [], ◌∷◌, ◌++◌, length, ltb, leb,
  ℤ, pos_part, is_positive, max, if◌then◌else◌,
}
use noxis_api_provider.Dict
use noxis_api_provider.Dict.{Dict}

pub record ProviderUsageWindow : Type 0 where
  pub minute_hits : List ℕ
  pub day_hits : List ℕ
  pub concurrent : ℕ
  pub total_requests : ℕ
  pub total_failures : ℕ
  pub total_429s : ℕ
  pub rate_limited_until : ℕ

abbrev pub new_window : ProviderUsageWindow
new_window = record {
  minute_hits = [];
  day_hits = [];
  concurrent = 0;
  total_requests = 0;
  total_failures = 0;
  total_429s = 0;
  rate_limited_until = 0;
}

-- 60 and 86400 seconds
abbrev pub minute : ℕ
minute = 60_000_000

abbrev pub day : ℕ
day = 86_400_000_000

-- One loop of `_trim`: the oldest hits are at the front of the deque.
unfoldable pub trim_hits : ℕ → ℕ → List ℕ → List ℕ
trim_hits now span [] = []
trim_hits now span (t ∷ ts) =
    let rest = trim_hits now span ts in if ltb span (now - t) then rest else t ∷ ts

unfoldable pub trim : ℕ → ProviderUsageWindow → ProviderUsageWindow
trim now w = record w {
  minute_hits = trim_hits now minute w.minute_hits;
  day_hits = trim_hits now day w.day_hits;
}

-- ProviderUsageWindow.record_request
unfoldable pub record_request : ℕ → ProviderUsageWindow → ProviderUsageWindow
unfolding trim
record_request now w = trim now (record w {
  minute_hits = w.minute_hits ++ now ∷ [];
  day_hits = w.day_hits ++ now ∷ [];
  total_requests = w.total_requests + 1;
})

-- `retry_after if retry_after and retry_after > 0 else 15.0`
unfoldable pub cooldown_of : Option ℤ → ℕ
cooldown_of none = 15_000_000
cooldown_of (some r) = if is_positive r then pos_part r else 15_000_000

-- ProviderUsageWindow.record_429
unfoldable pub window_record_429 : ℕ → Option ℤ → ProviderUsageWindow → ProviderUsageWindow
unfolding cooldown_of
window_record_429 now retry_after w = record w {
  total_429s = w.total_429s + 1;
  rate_limited_until = max w.rate_limited_until (now + cooldown_of retry_after);
}

-- ProviderUsageWindow.record_failure
unfoldable pub window_record_failure : ProviderUsageWindow → ProviderUsageWindow
window_record_failure w = record w { total_failures = w.total_failures + 1 }

-- The two counts trim the window before they measure it.
unfoldable pub requests_last_minute : ℕ → ProviderUsageWindow → ℕ × ProviderUsageWindow
unfolding trim
requests_last_minute now w = let w' = trim now w in (length w'.minute_hits, w')

unfoldable pub requests_last_day : ℕ → ProviderUsageWindow → ℕ × ProviderUsageWindow
unfolding trim
requests_last_day now w = let w' = trim now w in (length w'.day_hits, w')

unfoldable pub is_rate_limited : ℕ → ProviderUsageWindow → Bool
is_rate_limited now w = ltb now w.rate_limited_until

unfoldable pub seconds_until_available : ℕ → ProviderUsageWindow → ℕ
seconds_until_available now w = w.rate_limited_until - now

abbrev pub RateLimiter : Type 0
RateLimiter = Dict ProviderUsageWindow

-- The window of a provider, made on first use.
unfoldable pub window : String → RateLimiter → ProviderUsageWindow
unfolding Dict.get_or
window name rl = Dict.get_or name new_window rl

-- A write to the window object that `window` returns.
unfoldable pub with_window :
    String → (ProviderUsageWindow → ProviderUsageWindow) → RateLimiter → RateLimiter
with_window name f rl = Dict.set name (f (window name rl)) rl

-- `limit is None or count() < limit`; without a limit nothing is counted, nor trimmed.
unfoldable pub within :
    (ProviderUsageWindow → ℕ × ProviderUsageWindow)
    → Option ℕ
    → ProviderUsageWindow
    → Bool × ProviderUsageWindow
within requests none w = (true, w)
within requests (some limit) w = let (n, w') = requests w in (ltb n limit, w')

-- The tests of `can_serve` on one window, in their order, with the trimming that they cause.
unfoldable pub window_can_serve :
    ℕ → Option ℕ → Option ℕ → ℕ → ProviderUsageWindow → Bool × ProviderUsageWindow
unfolding within is_rate_limited requests_last_minute requests_last_day
window_can_serve now rpm_limit rpd_limit max_concurrency w =
    if is_rate_limited now w
    then (false, w)
    else if leb max_concurrency w.concurrent
    then (false, w)
    else let (room, w') = within (requests_last_minute now) rpm_limit w in
      if room then within (requests_last_day now) rpd_limit w' else (false, w')

unfoldable pub can_serve : ℕ → String → Option ℕ → Option ℕ → ℕ → RateLimiter → Bool × RateLimiter
can_serve now name rpm_limit rpd_limit max_concurrency rl =
    let (answer, w) = window_can_serve now rpm_limit rpd_limit max_concurrency (window name rl) in
    (answer, Dict.set name w rl)

unfoldable pub acquire : ℕ → String → RateLimiter → RateLimiter
unfolding with_window
acquire now name =
    with_window name (λ w. record_request now (record w { concurrent = w.concurrent + 1 }))

-- max(0, concurrent - 1)
unfoldable pub release : String → RateLimiter → RateLimiter
unfolding with_window
release name = with_window name (λ w. record w { concurrent = w.concurrent - 1 })

unfoldable pub record_429 : ℕ → String → Option ℤ → RateLimiter → RateLimiter
unfolding with_window
record_429 now name retry_after = with_window name (window_record_429 now retry_after)

unfoldable pub record_failure : String → RateLimiter → RateLimiter
unfolding with_window
record_failure name = with_window name window_record_failure

pub record Snapshot : Type 0 where
  pub requests_last_minute : ℕ
  pub requests_last_day : ℕ
  pub concurrent : ℕ
  pub total_requests : ℕ
  pub total_failures : ℕ
  pub total_429s : ℕ
  pub rate_limited : Bool
  pub seconds_until_available : ℕ

unfoldable pub window_snapshot : ℕ → ProviderUsageWindow → Snapshot × ProviderUsageWindow
unfolding requests_last_minute requests_last_day is_rate_limited seconds_until_available
window_snapshot now w =
    let (last_minute, w₁) = requests_last_minute now w in
    let (last_day, w₂) = requests_last_day now w₁ in
    (
      record {
        requests_last_minute = last_minute;
        requests_last_day = last_day;
        concurrent = w₂.concurrent;
        total_requests = w₂.total_requests;
        total_failures = w₂.total_failures;
        total_429s = w₂.total_429s;
        rate_limited = is_rate_limited now w₂;
        seconds_until_available = seconds_until_available now w₂;
      },
      w₂,
    )

unfoldable pub snapshot : ℕ → String → RateLimiter → Snapshot × RateLimiter
snapshot now name rl = let (s, w) = window_snapshot now (window name rl) in (s, Dict.set name w rl)
