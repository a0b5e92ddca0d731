-- ===== src/RateLimiter/Serving.antt =====
-- When `can_serve` of app/core/rate_limiter.py answers yes.
use noxis_api_provider.Prelude.{ℕ, ◌≤◌, ◌<◌, ◌≡◌, ◌↔◌, true, Option, none, some, count, arith}
use noxis_api_provider.RateLimiter.{ProviderUsageWindow, minute, day, window_can_serve}
use noxis_api_provider.RateLimiter.Window.{recent, length-trim_hits, trim_hits_idem}
use noxis_api_provider.RateLimiter.Queries.{trim_idem}
use noxis_api_provider.RateLimiter.Invariant.{IsValid}

-- There is no limit, or the number is below it.
abbrev pub Under : ℕ → Option ℕ → Type 0
Under n none = Unit
Under n (some limit) = n < limit

-- The window, by its own terms, has room for one more request.
pub record HasRoom (now : ℕ) (rpm rpd : Option ℕ) (most : ℕ) (w : ProviderUsageWindow)
    : Type 0 where
  pub not_limited : w.rate_limited_until ≤ now
  pub slot : w.concurrent < most
  pub minute_room : Under (count (recent now minute) w.minute_hits) rpm
  pub day_room : Under (count (recent now day) w.day_hits) rpd

module _ (now : ℕ) (rpm rpd : Option ℕ) (most : ℕ) (w : ProviderUsageWindow)
    (v : IsValid now w) where
  HasRoom-window_can_serve :
      (window_can_serve now rpm rpd most w).0 ≡ true → HasRoom now rpm rpd most w
  unfolding window_can_serve
  HasRoom-window_can_serve h = ground (
    arith,
    trim_idem now w,
    length-trim_hits now minute w.minute_hits v.0.sorted,
    length-trim_hits now day w.day_hits v.1.sorted,
    trim_hits_idem now day w.day_hits,
  )

  window_can_serve-HasRoom :
      HasRoom now rpm rpd most w → (window_can_serve now rpm rpd most w).0 ≡ true
  unfolding window_can_serve
  window_can_serve-HasRoom h = ground (
    arith,
    length-trim_hits now minute w.minute_hits v.0.sorted,
    length-trim_hits now day w.day_hits v.1.sorted,
    trim_hits_idem now day w.day_hits,
  )

-- A valid window says yes exactly when it has room by its own terms.
pub window_can_serve_iff :
    (now : ℕ) (rpm rpd : Option ℕ) (most : ℕ) (w : ProviderUsageWindow)
    → IsValid now w
    → ((window_can_serve now rpm rpd most w).0 ≡ true) ↔ HasRoom now rpm rpd most w
window_can_serve_iff now rpm rpd most w v =
    (HasRoom-window_can_serve now rpm rpd most w v, window_can_serve-HasRoom now rpm rpd most w v)
