-- ===== src/Config/Tests.antt =====
-- The theorem on app/config.py at a concrete input, and the pieces of a text that is less tidy.
use noxis_api_provider.Prelude.{◌≡◌, refl, some, [], ◌∷◌, ◌++◌}
use noxis_api_provider.Config.{split_commas, push, pieces, key_if_set, gateway_keys}
use noxis_api_provider.Config.Keys.{join_commas, gateway_keys-join_commas}
use noxis_api_provider.Samples.{settings}

gateway_keys-join_commas_example :
    gateway_keys (λ s. s) settings ≡ ("a" ∷ "b" ∷ []) ++ key_if_set (some "k")
unfolding join_commas
gateway_keys-join_commas_example =
    gateway_keys-join_commas (λ s. s) ("a" ∷ "b" ∷ []) settings refl
      (
        record { plain = refl; stripped = refl; nonempty = refl },
        (record { plain = refl; stripped = refl; nonempty = refl }, tt),
      )
      refl

pieces-empty_parts : pieces (λ s. s) "a,,b," ≡ "a" ∷ "b" ∷ []
unfolding pieces split_commas push
pieces-empty_parts = refl
