-- ===== src/GatewayRateLimiter/Tests.antt =====
-- A run of `GatewayRateLimiter` of app/core/rate_limiter.py.
use noxis_api_provider.Prelude.{◌≡◌, refl, List, [], ◌∷◌}
use noxis_api_provider.GatewayRateLimiter.{admit, allow}
use noxis_api_provider.RateLimiter.{trim_hits}
use noxis_api_provider.Dict
use noxis_api_provider.GatewayRateLimiter.Bound.{Request, allowed, fresh}

abbrev requests : List Request
requests = (1, "a") ∷ (2, "b") ∷ (3, "a") ∷ (4, "a") ∷ []

-- The third request of the key is refused.
allowed-two : allowed "a" (fresh 2) [] requests ≡ 3 ∷ 1 ∷ []
unfolding allowed allow admit trim_hits Dict.get_or Dict.set
allowed-two = refl
