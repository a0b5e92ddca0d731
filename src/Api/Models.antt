-- ===== src/Api/Models.antt =====
-- app/api/models.py: the list of models, and its refusal where there is none.
use noxis_api_provider.Prelude.{
  ℕ, String, ◌≡◌, refl, ap, Bool, Option, List, [], ◌∷◌, ◌++◌, if◌then◌else◌, inl, inr, ◌⊎◌,
}
use noxis_api_provider.Errors.{NoxisError}
use noxis_api_provider.Provider.{is_empty}
use noxis_api_provider.Security.{Text, Result, accepted, refused, Result-cases}
use noxis_api_provider.ModelRegistry.Catalog.{ModelInfo, list_models}
use noxis_api_provider.Deps.{authenticate}
use noxis_api_provider.App.{App}
use noxis_api_provider.Api.Admin.{guarded}

-- What the endpoint gives: the list, or the HTTPException of status 503.
pub data ModelsAnswer : Type 0 where
  models : List ModelInfo → ModelsAnswer
  none_available : ModelsAnswer

unfoldable pub answer_of : List ModelInfo → ModelsAnswer
answer_of data_ = if is_empty data_ then none_available else models data_

models-nonempty :
    (xs : List ModelInfo) (x : ModelInfo) → answer_of (xs ++ x ∷ []) ≡ models (xs ++ x ∷ [])
unfolding answer_of
models-nonempty [] x = refl
models-nonempty (y ∷ ys) x = refl

module _ {ℓ} {F : Type ℓ} {C : Type 0} where
  -- The dependency on `authenticate` alone.
  unfoldable pub as_client : Text → ℕ → Option String → App F C → Result String × App F C
  as_client py now header app =
      let (r, g) =
        authenticate py now header app.authenticator app.settings.allow_unauthenticated
          app.gateway_limiter in
      (r, record app { gateway_limiter = g })

  -- `after` is the order of texts.
  unfoldable pub get_models :
      (String → String → Bool) → Text → ℕ → Option String → App F C → Result ModelsAnswer × App F C
  unfolding guarded as_client answer_of
  get_models after py now header app =
      guarded (λ id app'. (accepted (answer_of (list_models after app'.shared.registry)), app'))
        (as_client py now header app)

  -- A client that is let in always gets a list of models: the entry noxis-free is in every list, and
  -- the answer for a list without entries is never given.
  pub get_models-listed :
      (after : String → String → Bool) (py : Text) (now : ℕ) (header : Option String)
      (app : App F C)
      → let (answer, app') = get_models after py now header app in
        (answer ≡ accepted (models (list_models after app.shared.registry)))
        ⊎ ((e : NoxisError) × (answer ≡ refused e) × ((as_client py now header app).0 ≡ refused e))
  unfolding get_models guarded list_models
  get_models-listed after py now header app = elim (Result-cases (as_client py now header app).0) [
    | inl (e, q) ↦ inr (e, rw (q, get_models, guarded) refl, q)
    | inr (id, q) ↦ inl (rw (q, get_models, guarded) (ap (λ x. accepted x) (models-nonempty _ _)))
  ]
