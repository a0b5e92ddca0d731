-- ===== src/Adapter/Credentials.antt =====
-- What a keyless provider is never sent: `_auth_headers` of app/providers/base.py in the requests of
-- app/providers/openai_compatible.py.
use noxis_api_provider.Prelude.{String, ◌≡◌, refl, ◌&&◌, false, none, [], ◌∷◌, str_eq_iff, arith}
use noxis_api_provider.Dict
use noxis_api_provider.Dict.{Dict, get-set}
use noxis_api_provider.Schemas.{ChatCompletionRequest}
use noxis_api_provider.Provider.{Provider, has_text, auth_headers}
use noxis_api_provider.Adapter.{merge, post_request, stream_request}

-- The header is not set.
abbrev pub Lacks : String → Dict String → Type 0
Lacks k d = Dict.get k d ≡ none

merge-Lacks : (k : String) (d e : Dict String) → Lacks k d → Lacks k e → Lacks k (merge d e)
unfolding merge Dict.get
merge-Lacks k d [] h g = h
merge-Lacks k d ((j, v) ∷ e) h g =
    merge-Lacks k (Dict.set j v d) e (ground (arith, get-set j k v d, str_eq_iff j k))
      (ground arith)

-- A provider that requires no key, or has none, is sent no Authorization header, streaming or not,
-- unless its own configured headers name one.
pub request-no_authorization :
    (p : Provider) (r : ChatCompletionRequest)
    → (p.config.requires_api_key && has_text p.config.api_key) ≡ false
    → Lacks "Authorization" p.config.extra_headers
    → Lacks "Authorization" (post_request p r).headers
      × Lacks "Authorization" (stream_request p r).headers
unfolding post_request stream_request auth_headers Dict.get
request-no_authorization p r h g =
    let own : Lacks "Authorization" (auth_headers p) = rw (h, auth_headers) g in
    (merge-Lacks _ _ _ refl own, merge-Lacks _ _ _ refl own)
