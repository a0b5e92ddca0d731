-- ===== src/Cache.antt =====
-- app/core/cache.py: the two caches of responses. Redis is a parameter, as are the texts that
-- Python's json prints and parses.
pub mod Lookup
pub mod Tests
use Prim.Native.String.{◌++◌}
use noxis_api_provider.Prelude.{
  ℕ, ◌+◌, String, Bool, false, Option, none, some, [], ltb, ◌>>=◌, if◌then◌else◌,
}
use noxis_api_provider.Dict
use noxis_api_provider.Dict.{Dict}
use noxis_api_provider.Json.{Json}

pub record InMemoryCache : Type 0 where
  pub ttl : ℕ
  pub store : Dict (ℕ × Json)

unfoldable pub new_cache : ℕ → InMemoryCache
new_cache ttl_seconds = record { ttl = ttl_seconds; store = [] }

-- A lookup gives the value and the cache, which drops an entry found to have expired.
unfoldable pub lookup : ℕ → String → InMemoryCache → Option Json × InMemoryCache
lookup now key c = elim (Dict.get key c.store) [
  | none ↦ (none, c)
  | some e ↦
      if ltb e.0 now then (none, record c { store = Dict.pop key c.store }) else (some e.1, c)
]

unfoldable pub store_value : ℕ → String → Json → InMemoryCache → InMemoryCache
store_value now key value c = record c { store = Dict.set key (now + c.ttl, value) c.store }

unfoldable pub clear : InMemoryCache → InMemoryCache
clear c = record c { store = [] }

-- A Redis server: its state, GET and SET with an expiry, which may raise (`none`, `true`); and json.dumps
-- and json.loads, where `none` is the exception.
pub record Redis : Type 1 where
  pub State : Type 0
  pub get : ℕ → String → State → Option (Option String)
  pub set : ℕ → String → String → ℕ → State → Bool × State
  pub dumps : Json → String
  pub loads : String → Option Json

module _ (redis : Redis) where
  -- An answer, or the exception of a text that does not parse, or of the server.
  unfoldable pub redis_get : ℕ → String → redis.State → Option (Option Json)
  redis_get now key s = do
    raw ← redis.get now ("noxis:cache:" ++ key) s
    elim raw [ none ↦ some none | some text ↦ do value ← redis.loads text; some (some value) ]

  unfoldable pub redis_set : ℕ → ℕ → String → Json → redis.State → Bool × redis.State
  redis_set ttl now key value s = redis.set now ("noxis:cache:" ++ key) (redis.dumps value) ttl s

-- What the endpoint asks of a cache: an answer or an exception (`none`), and a write, which may raise
-- (`true`), each with the cache that is left.
pub record ResponseCache (C : Type 0) : Type 0 where
  pub get : ℕ → String → C → Option (Option Json) × C
  pub set : ℕ → String → Json → C → Bool × C
  pub ttl_of : C → ℕ

instance abbrev pub memory_cache : ResponseCache InMemoryCache
memory_cache = record {
  get = λ now key c. let (found, c') = lookup now key c in (some found, c');
  set = λ now key value c. (false, store_value now key value c);
  ttl_of = λ c. c.ttl;
}

-- The two classes that the application chooses from.
pub data AnyCache (redis : Redis) : Type 0 where
  in_memory : InMemoryCache → AnyCache redis
  in_redis : (ttl : ℕ) → redis.State → AnyCache redis

module _ {redis : Redis} where
  unfoldable pub any_get : ℕ → String → AnyCache redis → Option (Option Json) × AnyCache redis
  unfolding lookup redis_get
  any_get now key (in_memory c) = let (found, c') = lookup now key c in (some found, in_memory c')
  any_get now key (in_redis ttl s) = (redis_get redis now key s, in_redis ttl s)

  unfoldable pub any_set : ℕ → String → Json → AnyCache redis → Bool × AnyCache redis
  unfolding store_value redis_set
  any_set now key value (in_memory c) = (false, in_memory (store_value now key value c))
  any_set now key value (in_redis ttl s) =
      let (fails, s') = redis_set redis ttl now key value s in (fails, in_redis ttl s')

  abbrev pub any_ttl : AnyCache redis → ℕ
  any_ttl (in_memory c) = c.ttl
  any_ttl (in_redis ttl s) = ttl

  -- `clear` leaves the shared server alone.
  unfoldable pub any_clear : AnyCache redis → AnyCache redis
  unfolding clear
  any_clear (in_memory c) = in_memory (clear c)
  any_clear (in_redis ttl s) = in_redis ttl s

  instance abbrev pub any_cache : ResponseCache (AnyCache redis)
  any_cache = record { get = any_get; set = any_set; ttl_of = any_ttl }
