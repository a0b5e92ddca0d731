-- ===== src/Adapter/Models.antt =====
-- app/providers/openai_compatible.py, `list_models` of a provider that has no models configured: what it
-- makes of the answer of the upstream.
use Prim.Native.String.{◌++◌ as append}
use noxis_api_provider.Prelude.{
  ℕ, String, ◌≡◌, refl, ap, Option, none, some, List, [], ◌∷◌, map, leb, if◌then◌else◌,
}
use noxis_api_provider.Dict.{Dict}
use noxis_api_provider.Json
use noxis_api_provider.Json.{Json, Items, Fields, as_dict, iterate}
use noxis_api_provider.Provider.{Provider, auth_headers}
use noxis_api_provider.Adapter.{rstrip_slash}

-- GET base_url + models_path, with the credential of the provider.
unfoldable pub models_request : Provider → String × Dict String
unfolding rstrip_slash auth_headers
models_request p = (append (rstrip_slash p.config.base_url) p.config.models_path, auth_headers p)

-- An exception of the client, or a status and what `resp.json()` gives, where `none` is its exception.
pub data Listing : Type 0 where
  raises : Listing
  responds : (status_code : ℕ) → Option Json → Listing

-- it.get("id") of a dict, str(it) of anything else; `show` is str.
unfoldable pub id_of : (Json → String) → Json → Json
unfolding as_dict Json.get_or Json.get
id_of show it = elim (as_dict it) [
  | none ↦ Json.str (show it)
  | some fs ↦ Json.get_or "id" Json.null fs
]

-- `data.get` comes first, and raises on anything but a dict; then the default is the empty list.
unfoldable pub items_of : Json → Option (List Json)
unfolding as_dict iterate Json.get_or Json.get
items_of data_ = elim (as_dict data_) [
  | none ↦ none
  | some fs ↦ iterate (Json.get_or "data" (Json.arr Items.nil) fs)
]

-- Any exception gives the empty list.
unfoldable pub fetched_ids : (Json → String) → Listing → List Json
unfolding items_of id_of
fetched_ids show raises = []
fetched_ids show (responds status_code json) = if leb 400 status_code then [] else elim json [
  | none ↦ []
  | some data_ ↦ elim (items_of data_) [ none ↦ [] | some items ↦ map (id_of show) items ]
]

-- {"id": name}, for each name
abbrev pub entries : List String → Items
entries [] = Items.nil
entries (name ∷ names) =
    Items.cons (Json.obj (Fields.field "id" (Json.str name) Fields.end)) (entries names)

ids-entries :
    (show : Json → String) (names : List String)
    → map (id_of show) (Json.to_list (entries names)) ≡ map (λ n. Json.str n) names
unfolding id_of Json.to_list Json.get_or Json.get as_dict
ids-entries show [] = refl
ids-entries show (name ∷ names) = ap (λ xs. Json.str name ∷ xs) (ids-entries show names)

-- A list in the form of the API, {"data": [{"id": ...}, ...]}, gives its names in their order; the same
-- entries in a bare JSON array give none.
pub fetched_ids-entries :
    (show : Json → String) (names : List String)
    → (fetched_ids show (
          responds 200
            (some (Json.obj (Fields.field "data" (Json.arr (entries names)) Fields.end))))
        ≡ map (λ n. Json.str n) names)
      × (fetched_ids show (responds 200 (some (Json.arr (entries names)))) ≡ [])
unfolding fetched_ids items_of Json.get_or Json.get as_dict iterate
fetched_ids-entries show names = (ids-entries show names, refl)
