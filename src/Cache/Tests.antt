-- ===== src/Cache/Tests.antt =====
-- A server as in Samples keeps what Redis documents, and a value that was set is found within its time.
use noxis_api_provider.Prelude.{ℕ, ◌+◌, ◌≤◌, ◌<◌, String, ◌≡◌, refl, false, some, str_eq_iff, arith}
use noxis_api_provider.Dict.{Dict, get-set}
use noxis_api_provider.Json.{Json}
use noxis_api_provider.Cache.{any_cache}
use noxis_api_provider.Cache.Lookup.{IsRedis, Serves, any-Serves}
use noxis_api_provider.Samples.{server}

server-get_set :
    (now later ttl : ℕ) (k text : String) (s : Dict (ℕ × String))
    → now ≤ later
    → later < now + ttl
    → (server.set now k text ttl s).0 ≡ false
    → server.get later k (server.set now k text ttl s).1 ≡ some (some text)
server-get_set now later ttl k text s le lt ok =
    ground (arith, get-set k k (now + ttl, text) s, str_eq_iff k k)

server-IsRedis : IsRedis server
server-IsRedis = record { get_set = server-get_set }

served : Serves (any_cache {redis = server}) (Json.str "a")
served = any-Serves server (Json.str "a") server-IsRedis refl
