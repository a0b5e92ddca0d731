-- ===== src/CacheKey/Tests.antt =====
-- The theorem on the keys of app/core/cache.py at a concrete input: a request that asks for two choices,
-- after one that asked for none in particular.
use noxis_api_provider.Prelude.{ℕ, ◌+◌, ◌≤◌, String, ◌≡◌, refl, some, [], ◌∷◌, In, List}
use noxis_api_provider.Dict
use noxis_api_provider.Json.{Json}
use noxis_api_provider.Schemas.{ChatCompletionRequest}
use noxis_api_provider.Cache.{new_cache, lookup, store_value}
use noxis_api_provider.Cache.Lookup.{answer}
use noxis_api_provider.CacheKey.{Relevant, relevant, build_cache_key}
use noxis_api_provider.CacheKey.Collisions.{Use, Agree, stored, cache_after, answers_alike}
use noxis_api_provider.Samples.{request}

abbrev by_model : Relevant → String
by_model x = x.model

abbrev two_choices : ChatCompletionRequest
two_choices = record request { n = some 2 }

abbrev uses : List Use
uses = stored 7 request (Json.str "hi") ∷ []

found :
    answer 9 (build_cache_key by_model two_choices) (cache_after by_model 300 uses)
    ≡ some (Json.str "hi")
unfolding new_cache lookup store_value build_cache_key relevant Dict.get Dict.set
found = refl

answers_alike_example :
    (now : ℕ) × (q : ChatCompletionRequest) × In (stored now q (Json.str "hi")) uses
    × Agree q two_choices
    × (9 ≤ now + 300)
unfolding relevant
answers_alike_example =
    answers_alike by_model 300 9 two_choices (Json.str "hi") uses (λ q. refl, tt) found
