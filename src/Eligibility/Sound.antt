-- ===== src/Eligibility/Sound.antt =====
-- The filter loop of app/core/router.py keeps exactly the providers that pass every hard filter.
use mathlib.Core.Path.{fun_ext}
use noxis_api_provider.Prelude.{
  ℕ, String, ◌≡◌, refl, ap, Bool, ◌&&◌, not, Option, none, some, List, [], ◌∷◌, keep, str_eq_iff,
  arith,
}
use noxis_api_provider.Schemas.{ChatCompletionRequest}
use noxis_api_provider.Provider.{Provider}
use noxis_api_provider.RateLimiter.{
  ProviderUsageWindow, RateLimiter, trim, can_serve, window_can_serve, window, is_rate_limited,
}
use noxis_api_provider.RateLimiter.History.{asks, act, step, window-step}
use noxis_api_provider.RateLimiter.Queries.{trim_idem, window_can_serve-trim}
use noxis_api_provider.ProviderRegistry.{ProviderRegistry, is_admin_disabled}
use noxis_api_provider.Eligibility.{
  is_eligible_health, passes, resolve_model_for_provider, is_eligible, eligible,
}

-- The answer of `can_serve` for a provider under its own limits.
abbrev pub serves : ℕ → Provider → RateLimiter → Bool
serves now p rl =
    (can_serve now p.name p.config.rate_limit.requests_per_minute
      p.config.rate_limit.requests_per_day p.config.rate_limit.max_concurrency rl).0

-- All hard filters, asked of the limiter as it is before the loop.
abbrev pub is_fit : ℕ → ProviderRegistry → ChatCompletionRequest → RateLimiter → Provider → Bool
is_fit now reg r rl p =
    is_eligible_health p.health
    && (not (is_admin_disabled p.name reg)
        && (serves now p rl && passes r p (resolve_model_for_provider p r.model)))

-- A window that was trimmed at `now` gives the answer that it gave before.
window_can_serve-trimmed :
    (now : ℕ) (rpm rpd : Option ℕ) (most : ℕ) (w : ProviderUsageWindow)
    → (window_can_serve now rpm rpd most (trim now w)).0 ≡ (window_can_serve now rpm rpd most w).0
unfolding window_can_serve is_rate_limited
window_can_serve-trimmed now none none most w = unfold trim in ground arith
window_can_serve-trimmed now none (some d) most w = ground (arith, trim_idem now w)
window_can_serve-trimmed now (some m) none most w = ground (arith, trim_idem now w)
window_can_serve-trimmed now (some m) (some d) most w = ground (arith, trim_idem now w)

asked_before :
    (now : ℕ) (j name : String) (rpm rpd a b : Option ℕ) (most c : ℕ) (rl : RateLimiter)
    → (window_can_serve now rpm rpd most (window j (step now name (asks a b c) rl))).0
      ≡ (window_can_serve now rpm rpd most (window j rl)).0
unfolding act
asked_before now j name rpm rpd a b most c rl = ground (
  arith,
  window-step now name j (asks a b c) rl,
  str_eq_iff name j,
  window_can_serve-trim now a b c (window name rl),
  window_can_serve-trimmed now rpm rpd most (window j rl),
)

-- An answer leaves every provider's answers as they were.
serves-can_serve :
    (now : ℕ) (p q : Provider) (rl : RateLimiter)
    → let limits = q.config.rate_limit in
      serves now p
        (can_serve now q.name limits.requests_per_minute limits.requests_per_day
          limits.max_concurrency rl).1
      ≡ serves now p rl
unfolding can_serve step
serves-can_serve now p q rl =
    let a = p.config.rate_limit in
    let b = q.config.rate_limit in
    asked_before now p.name q.name a.requests_per_minute a.requests_per_day b.requests_per_minute
      b.requests_per_day a.max_concurrency b.max_concurrency rl

is_eligible-is_fit :
    (now : ℕ) (reg : ProviderRegistry) (r : ChatCompletionRequest) (p : Provider) (rl : RateLimiter)
    → (is_eligible now reg r p rl).0 ≡ is_fit now reg r rl p
unfolding is_eligible
is_eligible-is_fit now reg r p rl = ground arith

is_fit-is_eligible :
    (now : ℕ) (reg : ProviderRegistry) (r : ChatCompletionRequest) (p q : Provider)
    (rl : RateLimiter)
    → is_fit now reg r (is_eligible now reg r q rl).1 p ≡ is_fit now reg r rl p
unfolding is_eligible
is_fit-is_eligible now reg r p q rl = ground (arith, serves-can_serve now p q rl)

-- The loop keeps, in their order, exactly the candidates that pass every hard filter (an eligible
-- health, not switched off, room by the rate limiter as it was before the loop, a model to send, room
-- in the context, and the capabilities), although each question to the limiter trims windows.
pub eligible-keep :
    (now : ℕ) (reg : ProviderRegistry) (r : ChatCompletionRequest) (ps : List Provider)
    (rl : RateLimiter)
    → (eligible now reg r ps rl).0 ≡ keep (is_fit now reg r rl) ps
unfolding eligible
eligible-keep now reg r [] rl = refl
eligible-keep now reg r (p ∷ ps) rl =
    let rl' = (is_eligible now reg r p rl).1 in
    ground (
      arith,
      is_eligible-is_fit now reg r p rl,
      eligible-keep now reg r ps rl',
      ap (λ (f : Provider → Bool). keep f ps) (fun_ext λ q. is_fit-is_eligible now reg r q p rl),
    )
