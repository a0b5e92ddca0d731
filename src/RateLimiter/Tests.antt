-- ===== src/RateLimiter/Tests.antt =====
-- The theorems of app/core/rate_limiter.py at concrete inputs.
use noxis_api_provider.Prelude.{
  ◌≤◌, ◌<◌, ◌≡◌, refl, ◌↔◌, true, false, none, some, List, [], ◌∷◌, pos, arith,
}
use noxis_api_provider.RateLimiter.{window, can_serve, record_429, minute, day, trim_hits}
use noxis_api_provider.RateLimiter.History.{acquires, releases, Entry, run}
use noxis_api_provider.RateLimiter.Invariant.{AllValid, AllValid-empty, last_time, run-AllValid}
use noxis_api_provider.RateLimiter.Serving.{Under}
use noxis_api_provider.RateLimiter.Log.{logged, can_serve_iff}
use noxis_api_provider.RateLimiter.Cooldown.{positive, record_429_holds}

abbrev log : List Entry
log =
    record { time = 1_000_000; name = "groq"; call = acquires }
    ∷ record { time = 2_000_000; name = "llm7"; call = acquires }
    ∷ record { time = 3_000_000; name = "groq"; call = releases }
    ∷ []

can_serve_iff_example : ((can_serve 4_000_000 "groq" (some 20) none 5 (run [] log)).0 ≡ true) ↔ (
    ((window "groq" (run [] log)).rate_limited_until ≤ 4_000_000)
    × ((window "groq" (run [] log)).concurrent < 5)
    × Under (logged 4_000_000 minute "groq" log) (some 20)
    × Under (logged 4_000_000 day "groq" log) none)
can_serve_iff_example =
    can_serve_iff log 4_000_000 "groq" (some 20) none 5
      (omega arith, (omega arith, (omega arith, tt))) (unfold last_time in omega arith)

run-AllValid_example : AllValid (last_time 0 log) (run [] log)
run-AllValid_example =
    run-AllValid 0 [] log (AllValid-empty 0) (omega arith, (omega arith, (omega arith, tt)))

record_429_holds_example :
    (can_serve 2_500_000 "groq" none none 5
      (run (record_429 1_000_000 "groq" (some (pos 2_000_000)) []) log)).0
    ≡ false
record_429_holds_example =
    record_429_holds 1_000_000 "groq" (some (pos 2_000_000)) [] log 2_500_000 none none 5 2_000_000
      (positive 2_000_000 (omega arith)) (omega arith)

-- A hit of exactly a minute ago still counts.
trim_hits-minute : trim_hits 60_000_001 minute (0 ∷ 1 ∷ []) ≡ 1 ∷ []
unfolding trim_hits
trim_hits-minute = refl
