-- ===== src/RateLimiter/Cooldown.antt =====
-- An upstream 429 and the slots of app/core/rate_limiter.py, through every later call.
use noxis_api_provider.Prelude.{
  ℕ, ◌+◌, ◌≤◌, ◌<◌, String, ◌≡◌, refl, false, Option, none, some, List, [], ◌∷◌, ℤ, pos, negsuc,
  str_eq_iff, arith,
}
use native.Mathlib.Nat.{le_trans}
use noxis_api_provider.RateLimiter.{
  ProviderUsageWindow, RateLimiter, trim, record_request, window_record_failure, window_record_429,
  window_can_serve, can_serve, record_429, cooldown_of, window,
}
use noxis_api_provider.RateLimiter.History.{
  Call, asks, acquires, releases, fails, looks, limits, Entry, act, step, run, window-step,
}
use noxis_api_provider.RateLimiter.Queries.{window_can_serve-trim, window_snapshot-trim}

rate_limited_until-act :
    (now : ℕ) (c : Call) (w : ProviderUsageWindow)
    → w.rate_limited_until ≤ (act now c w).rate_limited_until
unfolding act trim record_request window_record_failure window_record_429
rate_limited_until-act now (asks rpm rpd most) w =
    ground (arith, window_can_serve-trim now rpm rpd most w)
rate_limited_until-act now acquires w = omega arith
rate_limited_until-act now releases w = omega arith
rate_limited_until-act now fails w = omega arith
rate_limited_until-act now looks w = ground (arith, window_snapshot-trim now w)
rate_limited_until-act now (limits retry_after) w = omega arith

rate_limited_until-step :
    (now : ℕ) (name j : String) (c : Call) (rl : RateLimiter)
    → (window j rl).rate_limited_until ≤ (window j (step now name c rl)).rate_limited_until
rate_limited_until-step now name j c rl = ground (
  arith,
  window-step now name j c rl,
  str_eq_iff name j,
  rate_limited_until-act now c (window name rl),
)

rate_limited_until-run :
    (j : String) (rl : RateLimiter) (es : List Entry)
    → (window j rl).rate_limited_until ≤ (window j (run rl es)).rate_limited_until
unfolding run
rate_limited_until-run j rl [] = omega arith
rate_limited_until-run j rl (e ∷ es) =
    le_trans (rate_limited_until-step e.time e.name j e.call rl)
      (rate_limited_until-run j (step e.time e.name e.call rl) es)

limited-window_can_serve :
    (t : ℕ) (rpm rpd : Option ℕ) (most : ℕ) (w : ProviderUsageWindow)
    → t < w.rate_limited_until
    → (window_can_serve t rpm rpd most w).0 ≡ false
unfolding window_can_serve
limited-window_can_serve t rpm rpd most w h = ground arith

cooldown-le-step :
    (now : ℕ) (name : String) (retry_after : Option ℤ) (rl : RateLimiter)
    → now + cooldown_of retry_after
      ≤ (window name (step now name (limits retry_after) rl)).rate_limited_until
unfolding act window_record_429
cooldown-le-step now name retry_after rl =
    ground (arith, window-step now name name (limits retry_after) rl, str_eq_iff name name)

-- How long a 429 holds, by its Retry-After: 15 seconds where that is missing, zero or negative, and
-- otherwise as long as it says.
pub data HoldsFor : Option ℤ → ℕ → Type 0 where
  missing : HoldsFor none 15_000_000
  nought : HoldsFor (some (pos 0)) 15_000_000
  negative : (n : ℕ) → HoldsFor (some (negsuc n)) 15_000_000
  positive : (n : ℕ) → 0 < n → HoldsFor (some (pos n)) n

cooldown_of-HoldsFor :
    {retry_after : Option ℤ} {n : ℕ} → HoldsFor retry_after n → cooldown_of retry_after ≡ n
unfolding cooldown_of
cooldown_of-HoldsFor missing = refl
cooldown_of-HoldsFor nought = refl
cooldown_of-HoldsFor (negative n) = refl
cooldown_of-HoldsFor (positive n h) = ground (arith, h)

-- A 429 of a provider at time `now` holds it back: whatever calls follow, on any provider, it is not
-- served before `now` plus the Retry-After, or plus 15 seconds where that is missing or not positive.
pub record_429_holds :
    (now : ℕ) (name : String) (retry_after : Option ℤ) (rl : RateLimiter) (es : List Entry) (t : ℕ)
    (rpm rpd : Option ℕ) (most hold : ℕ)
    → HoldsFor retry_after hold
    → t < now + hold
    → (can_serve t name rpm rpd most (run (record_429 now name retry_after rl) es)).0 ≡ false
unfolding can_serve step
record_429_holds now name retry_after rl es t rpm rpd most hold for h =
    let same = cooldown_of-HoldsFor for in
    let start = cooldown-le-step now name retry_after rl in
    let later = rate_limited_until-run name (record_429 now name retry_after rl) es in
    limited-window_can_serve t rpm rpd most _
      (le_trans (omega (arith, h, same)) (le_trans start later))
