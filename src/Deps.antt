-- ===== src/Deps.antt =====
-- app/api/deps.py: `authenticate`, which each endpoint with a key depends on.
pub mod Quota
use noxis_api_provider.Prelude.{ℕ, String, Bool, Option, if◌then◌else◌}
use noxis_api_provider.Errors.{rate_limit_error}
use noxis_api_provider.Security.{Text, KeyAuthenticator, Result, accepted, refused, require_auth}
use noxis_api_provider.GatewayRateLimiter.{GatewayRateLimiter, allow}

-- An accepted key is counted by the limiter, which may refuse it.
unfoldable pub limited : ℕ → Result String → GatewayRateLimiter → Result String × GatewayRateLimiter
limited now (refused e) g = (refused e, g)
limited now (accepted id) g =
    let (allowed, g') = allow now id g in
    (
      if allowed
          then accepted id
          else refused (rate_limit_error "NOXIS gateway rate limit exceeded for this key."),
      g',
    )

unfoldable pub authenticate :
    Text
    → ℕ
    → Option String
    → KeyAuthenticator
    → Bool
    → GatewayRateLimiter
    → Result String × GatewayRateLimiter
unfolding limited
authenticate py now header a allow_unauthenticated g =
    limited now (require_auth py header a allow_unauthenticated) g
