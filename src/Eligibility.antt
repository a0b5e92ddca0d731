-- ===== src/Eligibility.antt =====
-- app/core/router.py, the hard filters: the first loop of `rank`, with what it calls. `rank` awaits
-- nothing, so all its reads of the clock are taken to give one time.
pub mod Sound
use Prim.Native.String.{count}
use noxis_api_provider.Prelude.{
  ℕ, ◌+◌, ◌/◌, String, Bool, true, false, ◌&&◌, not, Option, none, some, List, [], ◌∷◌, max, ltb,
  ◌==◌, if◌then◌else◌,
}
use noxis_api_provider.Schemas.{ChatMessage, Content, ChatCompletionRequest}
use noxis_api_provider.Provider.{
  Provider, ProviderHealth, ModelSpec, unknown, healthy, model_spec, is_empty,
}
use noxis_api_provider.RateLimiter.{RateLimiter, can_serve}
use noxis_api_provider.ProviderRegistry.{ProviderRegistry, is_admin_disabled}
use noxis_api_provider.ModelRegistry.{is_alias}

-- len(m.content) where it is a text
unfoldable pub content_chars : Option Content → ℕ
content_chars (some (Content.text s)) = count s
content_chars _ = 0

unfoldable pub total_chars : List ChatMessage → ℕ
unfolding content_chars
total_chars [] = 0
total_chars (m ∷ ms) = content_chars m.content + total_chars ms

-- `x or 0`
abbrev pub or_zero : Option ℕ → ℕ
or_zero none = 0
or_zero (some n) = n

unfoldable pub estimate_tokens : ChatCompletionRequest → ℕ
unfolding total_chars
estimate_tokens r = max 1 (total_chars r.messages / 4) + or_zero r.max_tokens

-- health in _ELIGIBLE_HEALTH
unfoldable pub is_eligible_health : ProviderHealth → Bool
is_eligible_health healthy = true
is_eligible_health unknown = true
is_eligible_health _ = false

-- A list that is there and not empty.
unfoldable pub has_items {ℓ} : {A : Type ℓ} → Option (List A) → Bool
has_items none = false
has_items (some xs) = not (is_empty xs)

-- Whether `_capability_score` is 1.0; it is None otherwise.
unfoldable pub is_capable : Provider → ChatCompletionRequest → Bool
unfolding has_items
is_capable p r =
    if r.stream && not p.config.supports_streaming
    then false
    else if has_items r.tools && not p.config.supports_tools
    then false
    else true

unfoldable pub first_name : List ModelSpec → Option String
first_name [] = none
first_name (m ∷ ms) = some m.name

unfoldable pub resolve_model_for_provider : Provider → String → Option String
unfolding first_name is_alias
resolve_model_for_provider p requested =
    if is_alias requested then first_name p.config.models else some requested

-- `spec and spec.context_length and est_tokens > spec.context_length`
unfoldable pub is_too_long : ℕ → Option ModelSpec → Bool
is_too_long est none = false
is_too_long est (some spec) = not (spec.context_length == 0) && ltb spec.context_length est

-- The filters behind `can_serve`, on the resolved model.
unfoldable pub passes : ChatCompletionRequest → Provider → Option String → Bool
unfolding is_too_long model_spec estimate_tokens is_capable
passes r p none = false
passes r p (some model) =
    if is_too_long (estimate_tokens r) (model_spec p model) then false else is_capable p r

-- One round of the filter loop: whether the provider is eligible, and the limiter afterwards.
unfoldable pub is_eligible :
    ℕ → ProviderRegistry → ChatCompletionRequest → Provider → RateLimiter → Bool × RateLimiter
unfolding is_eligible_health is_admin_disabled passes resolve_model_for_provider
is_eligible now reg r p rl =
    if not (is_eligible_health p.health)
    then (false, rl)
    else if is_admin_disabled p.name reg
    then (false, rl)
    else let limits = p.config.rate_limit in
      let (room, rl') =
        can_serve now p.name limits.requests_per_minute limits.requests_per_day
          limits.max_concurrency rl in
      (room && passes r p (resolve_model_for_provider p r.model), rl')

unfoldable pub eligible :
    ℕ
    → ProviderRegistry
    → ChatCompletionRequest
    → List Provider
    → RateLimiter
    → List Provider × RateLimiter
unfolding is_eligible
eligible now reg r [] rl = ([], rl)
eligible now reg r (p ∷ ps) rl =
    let (ok, rl') = is_eligible now reg r p rl in
    let (rest, rl'') = eligible now reg r ps rl' in (if ok then p ∷ rest else rest, rl'')
