-- ===== src/RateLimiter/History.antt =====
-- Every sequence of calls of the rate limiter, each at a time, and what a call does to one window.
use noxis_api_provider.Prelude.{
  ℕ, ◌+◌, ◌-◌, ◌≤◌, String, ◌≡◌, Option, List, [], ◌∷◌, ℤ, str_eq, if◌then◌else◌,
}
use noxis_api_provider.Dict
use noxis_api_provider.Dict.{dict_laws}
use noxis_api_provider.RateLimiter.{
  ProviderUsageWindow, RateLimiter, record_request, window_record_429, window_record_failure,
  window_can_serve, window, can_serve, acquire, release, record_429, record_failure, snapshot,
  window_snapshot,
}

pub data Call : Type 0 where
  asks : Option ℕ → Option ℕ → ℕ → Call
  acquires releases fails looks : Call
  limits : Option ℤ → Call

-- A call at a time, on a provider.
unfoldable pub step : ℕ → String → Call → RateLimiter → RateLimiter
unfolding can_serve acquire release record_failure record_429 snapshot
step now name (asks rpm rpd most) rl = (can_serve now name rpm rpd most rl).1
step now name acquires rl = acquire now name rl
step now name releases rl = release name rl
step now name fails rl = record_failure name rl
step now name looks rl = (snapshot now name rl).1
step now name (limits retry_after) rl = record_429 now name retry_after rl

-- The same call, as its own provider's window sees it.
unfoldable pub act : ℕ → Call → ProviderUsageWindow → ProviderUsageWindow
act now (asks rpm rpd most) w = (window_can_serve now rpm rpd most w).1
act now acquires w = record_request now (record w { concurrent = w.concurrent + 1 })
act now releases w = record w { concurrent = w.concurrent - 1 }
act now fails w = window_record_failure w
act now looks w = (window_snapshot now w).1
act now (limits retry_after) w = window_record_429 now retry_after w

window-set :
    (name j : String) (w : ProviderUsageWindow) (rl : RateLimiter)
    → window j (Dict.set name w rl) ≡ (if str_eq name j then w else window j rl)
unfolding window
window-set name j w rl = simp dict_laws

-- A call changes the window of its own provider only.
pub window-step :
    (now : ℕ) (name j : String) (c : Call) (rl : RateLimiter)
    → window j (step now name c rl)
      ≡ (if str_eq name j then act now c (window name rl) else window j rl)
unfolding step act
window-step now name j (asks rpm rpd most) rl = simp window-set
window-step now name j acquires rl = simp window-set
window-step now name j releases rl = simp window-set
window-step now name j fails rl = simp window-set
window-step now name j looks rl = simp window-set
window-step now name j (limits retry_after) rl = simp window-set

-- A history of calls.
pub record Entry : Type 0 where
  pub time : ℕ
  pub name : String
  pub call : Call

unfoldable pub run : RateLimiter → List Entry → RateLimiter
run rl [] = rl
run rl (e ∷ es) = run (step e.time e.name e.call rl) es

-- The clock does not go back: the times of a history from `now` on.
abbrev pub Chronological : ℕ → List Entry → Type 0
Chronological now [] = Unit
Chronological now (e ∷ es) = (now ≤ e.time) × Chronological e.time es
