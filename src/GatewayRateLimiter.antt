-- ===== src/GatewayRateLimiter.antt =====
-- app/core/rate_limiter.py, `GatewayRateLimiter`: one deque of hits for each client key.
pub mod Bound
pub mod Tests
use noxis_api_provider.Prelude.{
  ℕ, String, Bool, true, false, List, [], ◌∷◌, ◌++◌, length, leb, if◌then◌else◌,
}
use noxis_api_provider.Dict
use noxis_api_provider.Dict.{Dict}
use noxis_api_provider.RateLimiter.{minute, trim_hits}

pub record GatewayRateLimiter : Type 0 where
  pub rpm : ℕ
  pub hits : Dict (List ℕ)

-- The test and the append of `allow` on one key's deque, already trimmed.
unfoldable pub admit : ℕ → ℕ → List ℕ → Bool × List ℕ
admit rpm now dq = if leb rpm (length dq) then (false, dq) else (true, dq ++ now ∷ [])

-- `setdefault` makes the deque of a new key; a refused call has trimmed it all the same.
unfoldable pub allow : ℕ → String → GatewayRateLimiter → Bool × GatewayRateLimiter
allow now key_id g =
    let (answer, dq) = admit g.rpm now (trim_hits now minute (Dict.get_or key_id [] g.hits)) in
    (answer, record g { hits = Dict.set key_id dq g.hits })
