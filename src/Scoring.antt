-- ===== src/Scoring.antt =====
-- app/core/router.py, the sub-scores and their weighted sum. The floats are a parameter.
use noxis_api_provider.Prelude.{
  ℕ, Option, none, some, List, [], ◌∷◌, ◌++◌, map, length, eq_ℤ, ◌==◌, ℤ, pos, leb_ℤ, distance,
  if◌then◌else◌,
}
use noxis_api_provider.Float.{Float, nought, one, fmax, fmin}
use noxis_api_provider.Dict
use noxis_api_provider.Dict.{Dict}
use noxis_api_provider.Schemas.{ChatCompletionRequest}
use noxis_api_provider.Provider.{Provider, unknown, healthy}
use noxis_api_provider.RateLimiter.{RateLimiter, snapshot, Snapshot}
use noxis_api_provider.Eligibility.{is_capable}

-- min(priorities) and max(priorities); an empty list does not occur.
unfoldable pub lowest : List ℤ → ℤ
lowest [] = pos 0
lowest (a ∷ []) = a
lowest (a ∷ b ∷ r) = let m = lowest (b ∷ r) in if leb_ℤ a m then a else m

unfoldable pub highest : List ℤ → ℤ
highest [] = pos 0
highest (a ∷ []) = a
highest (a ∷ b ∷ r) = let m = highest (b ∷ r) in if leb_ℤ m a then a else m

module _ {ℓ} {F : Type ℓ} ⦃f : Float F⦄ where
  open f use {ratio, add, sub, mul, div, lt}

  unfoldable pub health_score : Provider → F
  health_score p = elim p.health [ healthy ↦ one | unknown ↦ ratio 4 10 | _ ↦ nought ]

  unfoldable pub priority_score : Provider → List Provider → F
  unfolding lowest highest
  priority_score p candidates =
      let priorities = map (λ q. q.config.priority) candidates in
      let lo = lowest priorities in
      let hi = highest priorities in
      if eq_ℤ hi lo then one else sub one (ratio (distance p.config.priority lo) (distance hi lo))

  -- max(0.0, min(1.0, 1.0 - (avg - 100) / 4900)), or 0.5 where nothing was observed
  unfoldable pub latency_score : Provider → Dict F → F
  unfolding Dict.get
  latency_score p stats = elim (Dict.get p.name stats) [
    | none ↦ ratio 5 10
    | some avg ↦ fmax nought (fmin one (sub one (div (sub avg (ratio 100 1)) (ratio 4900 1))))
  ]

  unfoldable pub reliability_of : Snapshot → F
  reliability_of s =
      if s.total_requests == 0
      then ratio 7 10
      else fmax nought (sub one (ratio s.total_failures s.total_requests))

  -- `if limit:` skips a limit of 0 as it skips None.
  unfoldable pub headroom : ℕ → Option ℕ → List F
  headroom used none = []
  headroom used (some limit) =
      if limit == 0 then [] else fmax nought (sub one (ratio used limit)) ∷ []

  unfoldable pub sum_from : F → List F → F
  sum_from acc [] = acc
  sum_from acc (a ∷ r) = sum_from (add acc a) r

  -- sum(scores) / len(scores), 1.0 where there are none
  unfoldable pub mean : List F → F
  unfolding sum_from
  mean [] = one
  mean (a ∷ r) = div (sum_from nought (a ∷ r)) (ratio (length (a ∷ r)) 1)

  unfoldable pub quota_of : Provider → Snapshot → F
  unfolding headroom mean
  quota_of p s =
      let limits = p.config.rate_limit in
      mean (
        headroom s.requests_last_minute limits.requests_per_minute
        ++ headroom s.requests_last_day limits.requests_per_day)

  abbrev pub w_health : F
  w_health = ratio 30 100

  abbrev pub w_priority : F
  w_priority = ratio 15 100

  abbrev pub w_latency : F
  w_latency = ratio 15 100

  abbrev pub w_reliability : F
  w_reliability = ratio 20 100

  abbrev pub w_quota : F
  w_quota = ratio 15 100

  abbrev pub w_capability : F
  w_capability = ratio 5 100

  -- The weighted sum, from the left.
  unfoldable pub weigh : F → F → F → F → F → F → F
  weigh health priority latency reliability quota capability =
      add
        (add
          (add (add (add (mul w_health health) (mul w_priority priority)) (mul w_latency latency))
            (mul w_reliability reliability))
          (mul w_quota quota))
        (mul w_capability capability)

  -- One round of the scoring loop; each snapshot trims the provider's window.
  unfoldable pub score :
      ℕ → ChatCompletionRequest → List Provider → Dict F → Provider → RateLimiter → F × RateLimiter
  unfolding weigh health_score priority_score latency_score reliability_of quota_of is_capable
  score now r candidates stats p rl =
      let (seen, rl₁) = snapshot now p.name rl in
      let (used, rl₂) = snapshot now p.name rl₁ in
      (
        weigh (health_score p) (priority_score p candidates) (latency_score p stats)
            (reliability_of seen) (quota_of p used) (if is_capable p r then one else nought),
        rl₂,
      )
