-- ===== src/RateLimiter/Log.antt =====
-- The windows of app/core/rate_limiter.py against the full log of the calls made.
use mathlib.Core.Path.{subst}
use native.Mathlib.Nat.{le_trans}
use noxis_api_provider.Prelude.{
  ℕ, ◌+◌, ◌≤◌, ◌<◌, String, ◌≡◌, sym, ◌↔◌, true, false, Bool, ◌&&◌, Option, List, [], ◌∷◌, ◌++◌,
  count, count-append, str_eq, str_eq_iff, if◌then◌else◌, arith,
}
use noxis_api_provider.RateLimiter.{
  ProviderUsageWindow, RateLimiter, minute, day, trim, record_request, can_serve,
  window_record_failure, window_record_429, window,
}
use noxis_api_provider.RateLimiter.Window.{recent, count-trim_hits}
use noxis_api_provider.RateLimiter.History.{
  Call, asks, acquires, releases, fails, looks, limits, Entry, Chronological, act, step, run,
  window-step,
}
use noxis_api_provider.RateLimiter.Queries.{window_can_serve-trim, window_snapshot-trim}
use noxis_api_provider.RateLimiter.Invariant.{
  AllValid-mono, AllValid-empty, last_time, run-AllValid,
}
use noxis_api_provider.RateLimiter.Serving.{Under, window_can_serve_iff}

abbrev is_acquire : Call → Bool
is_acquire acquires = true
is_acquire _ = false

-- How many requests of a provider the log holds that are no older than `span`.
abbrev pub logged : ℕ → ℕ → String → List Entry → ℕ
logged now span name =
    count λ e. is_acquire e.call && (str_eq e.name name && recent now span e.time)

-- The recent hits of both deques, at a later time.
abbrev hits_at : ℕ → ProviderUsageWindow → ℕ × ℕ
hits_at t w = (count (recent t minute) w.minute_hits, count (recent t day) w.day_hits)

hits_at-trim :
    (t now : ℕ) (w : ProviderUsageWindow) → now ≤ t → hits_at t (trim now w) ≡ hits_at t w
unfolding trim
hits_at-trim t now w h =
    ground
      (arith, count-trim_hits t now minute w.minute_hits h, count-trim_hits t now day w.day_hits h)

-- What one call adds to a count.
abbrev added : ℕ → ℕ → ℕ → Call → ℕ
added t span now c = if is_acquire c && recent t span now then 1 else 0

hits_at-act :
    (t now : ℕ) (c : Call) (w : ProviderUsageWindow)
    → now ≤ t
    → hits_at t (act now c w) ≡ (
      count (recent t minute) w.minute_hits + added t minute now c,
      count (recent t day) w.day_hits + added t day now c,
    )
unfolding act window_record_failure window_record_429
hits_at-act t now (asks rpm rpd most) w h =
    ground (arith, window_can_serve-trim now rpm rpd most w, hits_at-trim t now w h)
hits_at-act t now acquires w h =
    unfold record_request in
    ground (
      arith,
      hits_at-trim t now
          (record w {
            concurrent = w.concurrent + 1;
            minute_hits = w.minute_hits ++ now ∷ [];
            day_hits = w.day_hits ++ now ∷ [];
            total_requests = w.total_requests + 1;
          })
          h,
      count-append (recent t minute) w.minute_hits (now ∷ []),
      count-append (recent t day) w.day_hits (now ∷ []),
    )
hits_at-act t now releases w h = ground arith
hits_at-act t now fails w h = ground arith
hits_at-act t now looks w h = ground (arith, window_snapshot-trim now w, hits_at-trim t now w h)
hits_at-act t now (limits retry_after) w h = ground arith

last_time-ge : (now : ℕ) (es : List Entry) → Chronological now es → now ≤ last_time now es
unfolding last_time
last_time-ge now [] c = omega arith
last_time-ge now (e ∷ es) c = omega (arith, last_time-ge e.time es c.1)

-- The counts at a later time are those of the log.
hits_at-run :
    (t now : ℕ) (name : String) (rl : RateLimiter) (es : List Entry)
    → Chronological now es
    → last_time now es ≤ t
    → hits_at t (window name (run rl es)) ≡ (
      (hits_at t (window name rl)).0 + logged t minute name es,
      (hits_at t (window name rl)).1 + logged t day name es,
    )
unfolding run last_time
hits_at-run t now name rl [] c h = ground arith
hits_at-run t now name rl (e ∷ es) c h = ground (
  arith,
  hits_at-run t e.time name (step e.time e.name e.call rl) es c.1 h,
  window-step e.time e.name name e.call rl,
  str_eq_iff e.name name,
  hits_at-act t e.time e.call (window name rl) (le_trans (last_time-ge e.time es c.1) h),
)

hits-log :
    (es : List Entry) (now : ℕ) (name : String)
    → Chronological 0 es
    → last_time 0 es ≤ now
    → let w = window name (run [] es) in
      (count (recent now minute) w.minute_hits ≡ logged now minute name es)
      × (count (recent now day) w.day_hits ≡ logged now day name es)
unfolding window
hits-log es now name c h = ground (arith, hits_at-run now 0 name [] es c h)

-- After any calls on a clock that does not go back, `can_serve` says yes exactly when no cooldown is
-- running, a slot is free, and the log of all calls holds fewer requests of this provider in the
-- last minute and the last day than the limits, where there are limits.
pub can_serve_iff :
    (es : List Entry) (now : ℕ) (name : String) (rpm rpd : Option ℕ) (most : ℕ)
    → Chronological 0 es
    → last_time 0 es ≤ now
    → let w = window name (run [] es) in
      ((can_serve now name rpm rpd most (run [] es)).0 ≡ true) ↔ (
        (w.rate_limited_until ≤ now)
        × (w.concurrent < most)
        × Under (logged now minute name es) rpm
        × Under (logged now day name es) rpd)
unfolding can_serve
can_serve_iff es now name rpm rpd most c h =
    let w = window name (run [] es) in
    let valid =
      AllValid-mono (last_time 0 es) now _ h (run-AllValid 0 [] es (AllValid-empty 0) c) in
    let room = window_can_serve_iff now rpm rpd most w (valid.at name) in
    let (minutes, days) = hits-log es now name c h in
    (
      λ yes.
          let r = room.0 yes in
          (
            r.not_limited,
            r.slot,
            subst (λ n. Under n rpm) minutes r.minute_room,
            subst (λ n. Under n rpd) days r.day_room,
          ),
      λ r. room.1 (record {
        not_limited = r.0;
        slot = r.1;
        minute_room = subst (λ n. Under n rpm) (sym minutes) r.2;
        day_room = subst (λ n. Under n rpd) (sym days) r.3;
      }),
    )
