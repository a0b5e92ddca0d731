-- ===== src/Api/Embeddings.antt =====
-- app/api/embeddings.py: the enabled providers that support the model are asked in turn.
use Prim.Native.String.{◌++◌ as append}
use noxis_api_provider.Prelude.{
  ℕ, String, Option, none, some, List, [], ◌∷◌, keep, leb, if◌then◌else◌,
}
use noxis_api_provider.Dict.{Dict}
use noxis_api_provider.Json
use noxis_api_provider.Json.{Json, Fields, as_dict}
use noxis_api_provider.Provider.{Provider, supports_model, auth_headers, is_empty, ProviderApiError}
use noxis_api_provider.ProviderRegistry.{ProviderRegistry, enabled}
use noxis_api_provider.ModelRegistry.{by_priority}
use noxis_api_provider.Adapter.{rstrip_slash, merge, take_chars, is_among}
use noxis_api_provider.Security.{Text, Result, accepted}
use noxis_api_provider.App.{App}
use noxis_api_provider.Api.Admin.{guarded}
use noxis_api_provider.Api.Models.{as_client}

-- str | list[str]
pub data Input : Type 0 where
  text : String → Input
  texts : List String → Input

pub record EmbeddingsRequest : Type 0 where
  pub model : String
  pub input : Input
  pub encoding_format : Option String

-- A request to an upstream.
pub record EmbeddingsCall : Type 0 where
  pub url : String
  pub headers : Dict String
  pub payload : EmbeddingsRequest

-- What the upstream does: an exception of the client, or a status, the text, and what `resp.json()` gives,
-- where `none` is its exception.
pub data Upstream : Type 0 where
  raises : Upstream
  responds : (status_code : ℕ) (body : String) (json : Option Json) → Upstream

-- The last error: none yet, that of a status, or an exception.
pub data LastError : Type 0 where
  no_error : LastError
  of_status : ProviderApiError → LastError
  exception : LastError

-- The 503 answers are ServiceUnavailableError, for want of a candidate and of a good answer.
pub data EmbeddingsAnswer : Type 0 where
  embeddings : Fields → EmbeddingsAnswer
  unsupported : EmbeddingsAnswer
  all_failed : LastError → EmbeddingsAnswer

unfoldable pub candidates : ProviderRegistry → String → List Provider
unfolding enabled supports_model
candidates r model = keep (λ p. supports_model p model) (enabled r)

unfoldable pub embeddings_call : EmbeddingsRequest → Provider → EmbeddingsCall
unfolding rstrip_slash merge auth_headers
embeddings_call payload p = record {
  url = append (rstrip_slash p.config.base_url) "/embeddings";
  headers = merge (("Content-Type", "application/json") ∷ []) (auth_headers p);
  payload = payload;
}

-- data.setdefault("id", ...); data["noxis_provider"] = ..., which raise where `data` is no dict.
unfoldable pub mark : String → String → Json → Option Fields
unfolding as_dict
mark new_id name j = elim (as_dict j) [
  | none ↦ none
  | some fs ↦
      some (Json.put "noxis_provider" (Json.str name) (Json.set_default "id" (Json.str new_id) fs))
]

abbrev pub retryable_codes : List ℕ
retryable_codes = 429 ∷ 500 ∷ 502 ∷ 503 ∷ 504 ∷ []

-- One round of the loop: the answer, or the error.
pub data Round : Type 0 where
  good : Fields → Round
  bad : LastError → Round

unfoldable pub round_of : String → String → Upstream → Round
unfolding mark take_chars
round_of new_id name raises = bad exception
round_of new_id name (responds status_code body json) =
    if leb 400 status_code
    then bad (
        of_status (record {
          status_code = status_code;
          message = take_chars 300 body;
          retryable = is_among retryable_codes status_code;
          retry_after = none;
        }))
    else elim json [
      | none ↦ bad exception
      | some j ↦ elim (mark new_id name j) [ none ↦ bad exception | some fs ↦ good fs ]
    ]

-- The loop, with the calls that it makes.
unfoldable pub ask_all :
    EmbeddingsRequest
    → String
    → (String → Upstream)
    → LastError
    → List Provider
    → EmbeddingsAnswer × List EmbeddingsCall
unfolding round_of embeddings_call
ask_all payload new_id upstream last [] = (all_failed last, [])
ask_all payload new_id upstream last (p ∷ ps) = elim (round_of new_id p.name (upstream p.name)) [
  | good fs ↦ (embeddings fs, embeddings_call payload p ∷ [])
  | bad e ↦
      let (answer, calls) = ask_all payload new_id upstream e ps in
      (answer, embeddings_call payload p ∷ calls)
]

-- The body of the endpoint.
unfoldable pub embed :
    EmbeddingsRequest
    → String
    → (String → Upstream)
    → ProviderRegistry
    → EmbeddingsAnswer × List EmbeddingsCall
unfolding candidates by_priority
embed payload new_id upstream r =
    let ps = candidates r payload.model in
    if is_empty ps
    then (unsupported, [])
    else ask_all payload new_id upstream no_error (by_priority ps)

module _ {ℓ} {F : Type ℓ} {C : Type 0} where
  unfoldable pub create_embeddings :
      EmbeddingsRequest
      → String
      → (String → Upstream)
      → Text
      → ℕ
      → Option String
      → App F C
      → Result (EmbeddingsAnswer × List EmbeddingsCall) × App F C
  unfolding guarded as_client embed
  create_embeddings payload new_id upstream py now header app =
      guarded (λ id app'. (accepted (embed payload new_id upstream app'.shared.registry), app'))
        (as_client py now header app)
