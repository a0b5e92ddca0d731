-- ===== src/RateLimiter/Queries.antt =====
-- The calls that only look at a window: they trim it at most, and trimming twice changes nothing.
use noxis_api_provider.Prelude.{ℕ, ◌≡◌, ◌⊎◌, Option, none, some, arith}
use noxis_api_provider.RateLimiter.{ProviderUsageWindow, trim, window_can_serve, window_snapshot}
use noxis_api_provider.RateLimiter.Window.{trim_hits_idem}

pub trim_idem : (now : ℕ) (w : ProviderUsageWindow) → trim now (trim now w) ≡ trim now w
unfolding trim
trim_idem now w = simp trim_hits_idem

-- An answer leaves the window as it was, or trimmed.
pub window_can_serve-trim :
    (now : ℕ) (rpm rpd : Option ℕ) (most : ℕ) (w : ProviderUsageWindow)
    → let after = (window_can_serve now rpm rpd most w).1 in (after ≡ w) ⊎ (after ≡ trim now w)
unfolding window_can_serve
window_can_serve-trim now none none most w = ground arith
window_can_serve-trim now none (some d) most w = ground arith
window_can_serve-trim now (some m) none most w = ground arith
window_can_serve-trim now (some m) (some d) most w = ground (arith, trim_idem now w)

pub window_snapshot-trim :
    (now : ℕ) (w : ProviderUsageWindow) → (window_snapshot now w).1 ≡ trim now w
unfolding window_snapshot
window_snapshot-trim now w = trim_idem now w
