-- ===== src/Cache/Lookup.antt =====
-- What a lookup in the caches of app/core/cache.py finds.
use Prim.Native.String.{◌++◌}
use noxis_api_provider.Prelude.{
  ℕ, ◌+◌, ◌≤◌, ◌<◌, String, ◌≡◌, refl, Option, none, some, Option-cases, inl, inr, str_eq,
  str_eq_iff, leb, false, ap, if◌then◌else◌, arith,
}
use noxis_api_provider.Dict
use noxis_api_provider.Dict.{get-set, get-pop}
use noxis_api_provider.Json.{Json}
use noxis_api_provider.Cache.{
  InMemoryCache, lookup, store_value, Redis, redis_get, redis_set, ResponseCache, memory_cache,
  AnyCache, in_memory, in_redis, any_get, any_set, any_ttl, any_cache,
}

-- What a cache answers at a time, without its bookkeeping.
abbrev pub answer : ℕ → String → InMemoryCache → Option Json
answer now key c = (lookup now key c).0

-- After a value is stored, a lookup of its key finds it up to `ttl` later and nothing after that; the
-- answers for every other key are those of before.
pub lookup-store_value :
    (now later : ℕ) (key k : String) (value : Json) (c : InMemoryCache)
    → answer later k (store_value now key value c) ≡ (
        if str_eq key k
        then if leb later (now + c.ttl) then some value else none
        else answer later k c)
unfolding lookup store_value
lookup-store_value now later key k value c = elim (Option-cases (Dict.get k c.store)) [
  | inl e ↦ ground (arith, get-set key k (now + c.ttl, value) c.store, e)
  | inr (v, e) ↦ ground (arith, get-set key k (now + c.ttl, value) c.store, e)
]

-- A lookup changes no later answer, for any key: what it drops had expired.
pub lookup-lookup :
    (now later : ℕ) (key k : String) (c : InMemoryCache)
    → now ≤ later
    → answer later k (lookup now key c).1 ≡ answer later k c
unfolding lookup
lookup-lookup now later key k c h = elim (Option-cases (Dict.get key c.store)) [
  | inl e ↦ ground (arith, e)
  | inr (v, e) ↦ ground (arith, get-pop key k c.store, e, str_eq_iff key k)
]

-- What Redis documents of GET after SET with an expiry.
pub record IsRedis (redis : Redis) : Type 0 where
  pub get_set :
      (now later ttl : ℕ) (k text : String) (s : redis.State)
      → now ≤ later
      → later < now + ttl
      → (redis.set now k text ttl s).0 ≡ false
      → redis.get later k (redis.set now k text ttl s).1 ≡ some (some text)

-- That a cache serves a value: once written without an exception it is found for its time to live.
pub record Serves {C : Type 0} (k : ResponseCache C) (value : Json) : Type 0 where
  pub found :
      (now later : ℕ) (key : String) (c : C)
      → now ≤ later
      → later < now + k.ttl_of c
      → (k.set now key value c).0 ≡ false
      → (k.get later key (k.set now key value c).1).0 ≡ some (some value)
  pub kept : (now : ℕ) (key : String) (c : C) → k.ttl_of (k.set now key value c).1 ≡ k.ttl_of c

found_in_memory :
    (now later : ℕ) (key : String) (value : Json) (c : InMemoryCache)
    → later < now + c.ttl
    → answer later key (store_value now key value c) ≡ some value
found_in_memory now later key value c h =
    ground (arith, lookup-store_value now later key key value c, str_eq_iff key key, h)

pub memory-Serves : (value : Json) → Serves memory_cache value
unfolding store_value
memory-Serves value = record {
  found = λ now later key c le lt ok. ap some (found_in_memory now later key value c lt);
  kept = λ now key c. refl;
}

-- In Redis a value is served if json.loads reads it back from what json.dumps prints.
pub redis_get-redis_set :
    (redis : Redis) (now later ttl : ℕ) (key : String) (value : Json) (s : redis.State)
    → IsRedis redis
    → redis.loads (redis.dumps value) ≡ some value
    → now ≤ later
    → later < now + ttl
    → (redis_set redis ttl now key value s).0 ≡ false
    → redis_get redis later key (redis_set redis ttl now key value s).1 ≡ some (some value)
unfolding redis_get redis_set
redis_get-redis_set redis now later ttl key value s laws reads h g ok =
    rw
      (
        laws.get_set now later ttl ("noxis:cache:" ++ key) (redis.dumps value) s h g ok,
        reads,
        redis_get,
        redis_set,
      )
      refl

any-found :
    (redis : Redis) (value : Json) (now later : ℕ) (key : String) (c : AnyCache redis)
    → IsRedis redis
    → redis.loads (redis.dumps value) ≡ some value
    → now ≤ later
    → later < now + any_ttl c
    → (any_set now key value c).0 ≡ false
    → (any_get later key (any_set now key value c).1).0 ≡ some (some value)
unfolding any_set any_get
any-found redis value now later key (in_memory c) laws reads h g ok =
    ap some (found_in_memory now later key value c g)
any-found redis value now later key (in_redis ttl s) laws reads h g ok =
    redis_get-redis_set redis now later ttl key value s laws reads h g ok

any-kept :
    (redis : Redis) (value : Json) (now : ℕ) (key : String) (c : AnyCache redis)
    → any_ttl (any_set now key value c).1 ≡ any_ttl c
unfolding any_set store_value
any-kept redis value now key (in_memory c) = refl
any-kept redis value now key (in_redis ttl s) = refl

-- Whichever cache the application chose serves such a value.
pub any-Serves :
    (redis : Redis) (value : Json)
    → IsRedis redis
    → redis.loads (redis.dumps value) ≡ some value
    → Serves (any_cache {redis = redis}) value
any-Serves redis value laws reads = record {
  found = λ now later key c h g ok. any-found redis value now later key c laws reads h g ok;
  kept = λ now key c. any-kept redis value now key c;
}
