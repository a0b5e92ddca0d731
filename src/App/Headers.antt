-- ===== src/App/Headers.antt =====
-- The headers that the middleware of app/main.py and app/core/security.py puts on a response.
use noxis_api_provider.Prelude.{
  String, ◌≡◌, refl, ◌∙◌, ap, true, false, [], ◌∷◌, if_intro, Option, none, some, str_eq,
  str_eq_iff, if◌then◌else◌, Option-cases, inl, inr, arith,
}
use noxis_api_provider.Dict
use noxis_api_provider.Dict.{Dict, get-set}
use noxis_api_provider.App.Http.{
  Response, set_default, secured, dispatch, request_id_of, request_id_middleware, Ended, answered,
  raised, crashed, serve, shown, detail, noxis_error_handler, internal_answer,
}

contains-get : (k : String) (d : Dict String) → Dict.get k d ≡ none → Dict.contains k d ≡ false
unfolding Dict.get Dict.contains
contains-get k [] h = refl
contains-get k ((j, v) ∷ d) h = ground (arith, contains-get k d, h)

contains-some : (k v : String) (d : Dict String) → Dict.get k d ≡ some v → Dict.contains k d ≡ true
unfolding Dict.get Dict.contains
contains-some k v [] h = absurd (ground (arith, h))
contains-some k v ((j, w) ∷ d) h = ground (arith, contains-some k v d, h)

abbrev pub or_default : Option String → String → String
or_default none v = v
or_default (some w) v = w

get-set_default :
    (k v : String) (d : Dict String)
    → Dict.get k (set_default k v d) ≡ some (or_default (Dict.get k d) v)
unfolding set_default
get-set_default k v d = elim (Option-cases (Dict.get k d)) [
  | inl e ↦
      rw (contains-get k d e, e, set_default) (get-set k k v d ∙ rw ((str_eq_iff k k).1 refl) refl)
  | inr (w, e) ↦ rw (contains-some k w d e, set_default) (e ∙ rw e refl)
]

get-set_default_other :
    (k j v : String) (d : Dict String)
    → str_eq k j ≡ false
    → Dict.get j (set_default k v d) ≡ Dict.get j d
unfolding set_default
get-set_default_other k j v d h =
    if_intro (λ x. Dict.get j x ≡ Dict.get j d) (Dict.contains k d) _ _ (λ _. refl)
      (λ _. get-set k j v d ∙ rw h refl)

-- What a client is given: the status and the body of the endpoint, the id of its own request, or a new
-- one, and the four headers, of which Cache-Control keeps what the endpoint has set.
pub record Given (given : Option String) (new_id : String) (r r' : Response) : Type 0 where
  pub status : r'.status_code ≡ r.status_code
  pub content : r'.content ≡ r.content
  pub request_id : Dict.get "x-request-id" r'.headers ≡ some (request_id_of given new_id)
  pub no_sniff : Dict.get "x-content-type-options" r'.headers ≡ some "nosniff"
  pub no_frame : Dict.get "x-frame-options" r'.headers ≡ some "DENY"
  pub no_referrer : Dict.get "referrer-policy" r'.headers ≡ some "no-referrer"
  pub cache_control :
      Dict.get "cache-control" r'.headers
      ≡ some (or_default (Dict.get "cache-control" r.headers) "no-store")

-- Through both middlewares an exception stays one, and a response is given as above.
pub request_id_middleware-dispatch :
    (given : Option String) (new_id : String) (r : Response)
    → (request_id_middleware given new_id (dispatch none) ≡ none)
      × ((r' : Response) × (request_id_middleware given new_id (dispatch (some r)) ≡ some r')
          × Given given new_id r r')
unfolding request_id_middleware dispatch secured
request_id_middleware-dispatch given new_id r =
    let d₁ = Dict.set "x-content-type-options" "nosniff" r.headers in
    let d₂ = Dict.set "x-frame-options" "DENY" d₁ in
    let d₃ = Dict.set "referrer-policy" "no-referrer" d₂ in
    let d₄ = set_default "cache-control" "no-store" d₃ in
    let id = request_id_of given new_id in
    let last : (k : String)
        → Dict.get k (Dict.set "x-request-id" id d₄)
          ≡ (if str_eq "x-request-id" k then some id else Dict.get k d₄) =
      λ k. get-set "x-request-id" k id d₄ in
    (
      refl,
      (
        _,
        refl,
        record {
          status = refl;
          content = refl;
          request_id = last "x-request-id";
          no_sniff =
              last "x-content-type-options"
              ∙ (get-set_default_other "cache-control" "x-content-type-options" "no-store" d₃ refl
                  ∙ (get-set "referrer-policy" "x-content-type-options" "no-referrer" d₂
                      ∙ (get-set "x-frame-options" "x-content-type-options" "DENY" d₁
                          ∙ get-set "x-content-type-options" "x-content-type-options" "nosniff"
                              r.headers)));
          no_frame =
              last "x-frame-options"
              ∙ (get-set_default_other "cache-control" "x-frame-options" "no-store" d₃ refl
                  ∙ (get-set "referrer-policy" "x-frame-options" "no-referrer" d₂
                      ∙ get-set "x-frame-options" "x-frame-options" "DENY" d₁));
          no_referrer =
              last "referrer-policy"
              ∙ (get-set_default_other "cache-control" "referrer-policy" "no-store" d₃ refl
                  ∙ get-set "referrer-policy" "referrer-policy" "no-referrer" d₂);
          cache_control =
              last "cache-control"
              ∙ (get-set_default "cache-control" "no-store" d₃
                  ∙ ap (λ o. some (or_default o "no-store"))
                      (get-set "referrer-policy" "cache-control" "no-referrer" d₂
                        ∙ (get-set "x-frame-options" "cache-control" "DENY" d₁
                            ∙ get-set "x-content-type-options" "cache-control" "nosniff"
                                r.headers)));
        },
      ),
    )

-- Whether a response is what the client gets for how its request ended.
abbrev pub Sent : Option String → String → Ended → Response → Type 0
Sent given new_id (answered r) r' = Given given new_id r r'
Sent given new_id (raised e) r' =
    Given given new_id (record { status_code = e.status_code; headers = []; content = detail e }) r'
Sent given new_id (crashed exc) r' = r' ≡ internal_answer

-- Every request is answered: a response comes out with its status and body, a NoxisError as its own status
-- with its error object, and both with the id of the request and the four security headers. Any other
-- exception becomes the one fixed answer with status 500, which tells nothing of it, but has none of these
-- headers.
pub serve-Sent :
    (given : Option String) (new_id : String) (e : Ended)
    → Sent given new_id e (serve given new_id e)
unfolding serve noxis_error_handler
serve-Sent given new_id (answered r) =
    let (r', same, g) = (request_id_middleware-dispatch given new_id r).1 in rw (same, shown) g
serve-Sent given new_id (raised e) =
    let (r', same, g) =
      (request_id_middleware-dispatch given new_id
        (record { status_code = e.status_code; headers = []; content = detail e })).1 in
    rw (same, shown) g
serve-Sent given new_id (crashed exc) =
    rw ((request_id_middleware-dispatch given new_id internal_answer).0, shown) refl
