-- ===== src/Router/Slots.antt =====
-- The slots in use, under the calls that the router and the scheduler make of the rate limiter.
use noxis_api_provider.Prelude.{
  ℕ, ◌+◌, ◌-◌, String, ◌≡◌, refl, ◌∙◌, ℤ, Bool, true, false, Option, List, [], ◌∷◌, str_eq,
  if◌then◌else◌, arith,
}
use noxis_api_provider.Float.{Float}
use noxis_api_provider.Schemas.{ChatCompletionRequest}
use noxis_api_provider.Provider.{Provider}
use noxis_api_provider.Dict.{Dict}
use noxis_api_provider.ProviderRegistry.{ProviderRegistry}
use noxis_api_provider.RateLimiter.{
  RateLimiter, window, can_serve, snapshot, acquire, release, record_429,
}
use noxis_api_provider.RateLimiter
use noxis_api_provider.RateLimiter.History.{asks, acquires, releases, fails, looks, limits, step}
use noxis_api_provider.RateLimiter.Slots.{concurrent-step}
use noxis_api_provider.Eligibility.{is_eligible, eligible}
use noxis_api_provider.Scoring.{score}
use noxis_api_provider.Router.{decisions, rank}

-- The slots of a provider that are in use.
abbrev pub in_use : RateLimiter → String → ℕ
in_use rl j = (window j rl).concurrent

pub acquire-in_use :
    (now : ℕ) (name j : String) (rl : RateLimiter)
    → in_use (acquire now name rl) j ≡ (if str_eq name j then in_use rl j + 1 else in_use rl j)
unfolding step
acquire-in_use now name j rl = concurrent-step now name j acquires rl

pub release-in_use :
    (name j : String) (rl : RateLimiter)
    → in_use (release name rl) j ≡ (if str_eq name j then in_use rl j - 1 else in_use rl j)
unfolding step
release-in_use name j rl = concurrent-step 0 name j releases rl

same_if : (b : Bool) (n : ℕ) → (if b then n else n) ≡ n
same_if true n = refl
same_if false n = refl

can_serve-in_use :
    (now : ℕ) (name j : String) (rpm rpd : Option ℕ) (most : ℕ) (rl : RateLimiter)
    → in_use (can_serve now name rpm rpd most rl).1 j ≡ in_use rl j
unfolding step
can_serve-in_use now name j rpm rpd most rl =
    concurrent-step now name j (asks rpm rpd most) rl ∙ same_if (str_eq name j) (in_use rl j)

pub snapshot-in_use :
    (now : ℕ) (name j : String) (rl : RateLimiter) → in_use (snapshot now name rl).1 j ≡ in_use rl j
unfolding step
snapshot-in_use now name j rl =
    concurrent-step now name j looks rl ∙ same_if (str_eq name j) (in_use rl j)

pub record_failure-in_use :
    (name j : String) (rl : RateLimiter)
    → in_use (RateLimiter.record_failure name rl) j ≡ in_use rl j
unfolding step
record_failure-in_use name j rl =
    concurrent-step 0 name j fails rl ∙ same_if (str_eq name j) (in_use rl j)

pub record_429-in_use :
    (now : ℕ) (name j : String) (retry_after : Option ℤ) (rl : RateLimiter)
    → in_use (record_429 now name retry_after rl) j ≡ in_use rl j
unfolding step
record_429-in_use now name j retry_after rl =
    concurrent-step now name j (limits retry_after) rl ∙ same_if (str_eq name j) (in_use rl j)

eligible-in_use :
    (now : ℕ) (reg : ProviderRegistry) (r : ChatCompletionRequest) (ps : List Provider)
    (rl : RateLimiter) (j : String)
    → in_use (eligible now reg r ps rl).1 j ≡ in_use rl j
unfolding eligible is_eligible
eligible-in_use now reg r [] rl j = refl
eligible-in_use now reg r (p ∷ ps) rl j = ground (
  arith,
  eligible-in_use now reg r ps (is_eligible now reg r p rl).1 j,
  can_serve-in_use now p.name j p.config.rate_limit.requests_per_minute
      p.config.rate_limit.requests_per_day p.config.rate_limit.max_concurrency rl,
)

module _ {ℓ} {F : Type ℓ} ⦃f : Float F⦄ where
  decisions-in_use :
      (now : ℕ) (r : ChatCompletionRequest) (fit : List Provider) (stats : Dict F)
      (ps : List Provider) (rl : RateLimiter) (j : String)
      → in_use (decisions now r fit stats ps rl).1 j ≡ in_use rl j
  unfolding decisions score
  decisions-in_use now r fit stats [] rl j = refl
  decisions-in_use now r fit stats (p ∷ ps) rl j =
      decisions-in_use now r fit stats ps (score now r fit stats p rl).1 j
      ∙ (snapshot-in_use now p.name j (snapshot now p.name rl).1 ∙ snapshot-in_use now p.name j rl)

  pub rank-in_use :
      (now : ℕ) (reg : ProviderRegistry) (stats : Dict F) (r : ChatCompletionRequest)
      (rl : RateLimiter) (j : String)
      → in_use (rank now reg stats r rl).1 j ≡ in_use rl j
  unfolding rank
  rank-in_use now reg stats r rl j =
      decisions-in_use now r _ stats _ _ j ∙ eligible-in_use now reg r _ rl j
