-- ===== src/RateLimiter/Slots.antt =====
-- The slots of app/core/rate_limiter.py: `concurrent` under `acquire` and `release`.
use noxis_api_provider.Prelude.{
  ℕ, ◌+◌, ◌-◌, String, ◌≡◌, refl, List, [], ◌∷◌, str_eq, str_eq_iff, if◌then◌else◌, arith,
}
use noxis_api_provider.RateLimiter.{
  ProviderUsageWindow, RateLimiter, trim, record_request, window_record_failure, window_record_429,
  window,
}
use noxis_api_provider.RateLimiter.History.{
  Call, asks, acquires, releases, fails, looks, limits, Entry, act, step, run, window-step,
}
use noxis_api_provider.RateLimiter.Queries.{window_can_serve-trim, window_snapshot-trim}

-- The slots of a provider that are taken after a history, by counting alone.
abbrev pub taken_by : Call → ℕ → ℕ
taken_by acquires n = n + 1
taken_by releases n = n - 1
taken_by _ n = n

unfoldable pub taken : String → ℕ → List Entry → ℕ
taken name n [] = n
taken name n (e ∷ es) = taken name (if str_eq e.name name then taken_by e.call n else n) es

concurrent-act :
    (now : ℕ) (c : Call) (w : ProviderUsageWindow)
    → (act now c w).concurrent ≡ taken_by c w.concurrent
unfolding act trim record_request window_record_failure window_record_429
concurrent-act now (asks rpm rpd most) w = ground (arith, window_can_serve-trim now rpm rpd most w)
concurrent-act now acquires w = refl
concurrent-act now releases w = refl
concurrent-act now fails w = refl
concurrent-act now looks w = ground (arith, window_snapshot-trim now w)
concurrent-act now (limits retry_after) w = refl

-- One call and the slots of one provider.
pub concurrent-step :
    (now : ℕ) (name j : String) (c : Call) (rl : RateLimiter)
    → (window j (step now name c rl)).concurrent
      ≡ (if str_eq name j then taken_by c (window j rl).concurrent else (window j rl).concurrent)
concurrent-step now name j c rl =
    ground
      (arith, window-step now name j c rl, str_eq_iff name j, concurrent-act now c (window name rl))

-- After any calls the slots in use of each provider are its acquires less its releases, a release
-- with no slot in use counting for nothing; no other call, and no other provider, has a part in it.
pub concurrent-run :
    (name : String) (rl : RateLimiter) (es : List Entry)
    → (window name (run rl es)).concurrent ≡ taken name (window name rl).concurrent es
unfolding run taken
concurrent-run name rl [] = refl
concurrent-run name rl (e ∷ es) = ground (
  arith,
  concurrent-run name (step e.time e.name e.call rl) es,
  window-step e.time e.name name e.call rl,
  str_eq_iff e.name name,
  concurrent-act e.time e.call (window name rl),
)
