-- ===== src/Api/Guarded.antt =====
-- Which calls of POST /v1/chat/completions have an effect.
use noxis_api_provider.Prelude.{
  ℕ, ◌≤◌, String, ◌≡◌, refl, ap, sym, ◌⊎◌, inl, inr, false, Option, none, some, [], In, Bool-cases,
  Option-cases, ltb, arith,
}
use noxis_api_provider.Float.{Float}
use noxis_api_provider.Json.{Json}
use noxis_api_provider.Schemas.{ChatCompletionRequest}
use noxis_api_provider.Schemas.Dump.{dump_request}
use noxis_api_provider.Schemas.Parse.{Pydantic, parse_request}
use noxis_api_provider.Schemas.Valid.{Maybe, IsPydantic, IsValid, parse-IsValid}
use noxis_api_provider.Errors.{NoxisError}
use noxis_api_provider.Security.{
  Text, Result, accepted, refused, extract_bearer_token, require_auth, key_id,
}
use noxis_api_provider.Security.Access.{require_auth-known}
use noxis_api_provider.GatewayRateLimiter.{GatewayRateLimiter, allow}
use noxis_api_provider.CircuitBreaker.{Random}
use noxis_api_provider.Adapter.{Python}
use noxis_api_provider.Streaming
use noxis_api_provider.Cache.{ResponseCache}
use noxis_api_provider.Deps.{limited, authenticate}
use noxis_api_provider.Chat.State.{enter}
use noxis_api_provider.Chat.Exchange.{Limits, Library, World}
use noxis_api_provider.Chat.{exceeds, refusal, chat_completions}
use noxis_api_provider.App.{App, limits_of}
use noxis_api_provider.Api.Completions.{Messages, Visit, visited, after_key, post}

-- The limits on a request that the endpoint checks.
pub record IsWithin (lib : Library) (limits : Limits) (r : ChatCompletionRequest) : Type 0 where
  pub size : lib.printed_length (dump_request r) ≤ limits.max_request_bytes
  pub tokens : Maybe (λ n. n ≤ limits.max_tokens_ceiling) r.max_tokens

exceeds-le : (ceiling : ℕ) (o : Option ℕ) → exceeds ceiling o ≡ false → Maybe (λ n. n ≤ ceiling) o
unfolding exceeds
exceeds-le ceiling none e = tt
exceeds-le ceiling (some n) e = ground (arith, e)

refusal-IsWithin :
    (lib : Library) (py : Python) (limits : Limits) (r : ChatCompletionRequest)
    → refusal lib py limits r ≡ none
    → IsWithin lib limits r
unfolding refusal
refusal-IsWithin lib py limits r =
    elim (Bool-cases (ltb limits.max_request_bytes (lib.printed_length (dump_request r)))) [
      | inl e ↦ rw (e, refusal) (λ q. absurd cc)
      | inr e ↦ elim (Bool-cases (exceeds limits.max_tokens_ceiling r.max_tokens)) [
        | inl g ↦ rw (e, g, refusal) (λ q. absurd cc)
        | inr g ↦
            rw (e, g, refusal)
              (λ q. record {
                size = ground (arith, e);
                tokens = exceeds-le limits.max_tokens_ceiling r.max_tokens g;
              })
      ]
    ]

-- Whoever is let through has been accepted by the check of the key.
limited-accepted :
    (now : ℕ) (r : Result String) (g : GatewayRateLimiter) (id : String)
    → (limited now r g).0 ≡ accepted id
    → r ≡ accepted id
unfolding limited
limited-accepted now (refused e) g id q = q
limited-accepted now (accepted i) g id q = elim (Bool-cases (allow now i g).0) [
  | inl e ↦ ground (arith, e)
  | inr e ↦ absurd (ground (arith, e))
]

module _ {ℓ} {F : Type ℓ} {C : Type 0} ⦃f : Float F⦄ ⦃k : ResponseCache C⦄ (lib : Library)
    (py : Python) (rnd : Random) (pyd : Pydantic) (m : Messages) (w : World F C)
    (streams : ℕ → Streaming.Round F) (app : App F C) where
  -- Nothing is sent, and of the shared state nothing has changed but the gauge and the limiter.
  pub record Untouched (v : Visit F C) : Type ℓ where
    pub sent : v.sent ≡ []
    pub state : v.state ≡ app.shared
    pub held : v.desk.held ≡ app.desk.held
    pub cache : v.desk.cache ≡ app.desk.cache
    pub rows : v.desk.rows ≡ app.desk.rows

  -- The call is that of a known key, with a valid request within the limits, and is the endpoint's answer.
  pub record Entitled (text : Text) (header : Option String) (body : Json) (v : Visit F C)
      : Type ℓ where
    pub token : String
    pub given : extract_bearer_token text header ≡ some token
    pub known : In (text.hash_key token) app.authenticator.valid_hashes
    pub request : ChatCompletionRequest
    pub parsed : parse_request pyd body ≡ some request
    pub valid : IsValid pyd request
    pub within : IsWithin lib (limits_of app.settings) request
    pub answer : v ≡ visited lib py rnd pyd m w streams app (key_id text token) v.limiter request

  -- A request that is refused for its size.
  refused-Untouched :
      (key : String) (g : GatewayRateLimiter) (r : ChatCompletionRequest) (e : NoxisError)
      → refusal lib py (limits_of app.settings) r ≡ some e
      → Untouched (visited lib py rnd pyd m w streams app key g r)
  unfolding visited chat_completions enter
  refused-Untouched key g r e q = record {
    sent = rw (q, chat_completions) refl;
    state = rw (q, chat_completions) refl;
    held = rw (q, chat_completions) refl;
    cache = rw (q, chat_completions) refl;
    rows = rw (q, chat_completions) refl;
  }

  visited-Guarded :
      (text : Text) (header : Option String) (body : Json) (id : String) (g : GatewayRateLimiter)
      (r : ChatCompletionRequest)
      → IsPydantic pyd
      → parse_request pyd body ≡ some r
      → require_auth text header app.authenticator false ≡ accepted id
      → Untouched (visited lib py rnd pyd m w streams app id g r)
        ⊎ Entitled text header body (visited lib py rnd pyd m w streams app id g r)
  unfolding visited
  visited-Guarded text header body id g r laws parsed auth =
      let limits = limits_of app.settings in
      let (token, (given, (known, named))) =
        require_auth-known text header app.authenticator id auth in
      elim (Option-cases (refusal lib py limits r)) [
        | inr (e, q) ↦ inl (refused-Untouched id g r e q)
        | inl q ↦ inr (record {
          token = token;
          given = given;
          known = known;
          request = r;
          parsed = parsed;
          valid = parse-IsValid pyd laws body r parsed;
          within = refusal-IsWithin lib py limits r q;
          answer = ap (λ i. visited lib py rnd pyd m w streams app i g r) named;
        })
      ]

  after_key-Guarded :
      (text : Text) (header : Option String) (body : Json) (key : Result String)
      (g : GatewayRateLimiter)
      → IsPydantic pyd
      → ((id : String)
          → key ≡ accepted id
          → require_auth text header app.authenticator false ≡ accepted id)
      → Untouched (after_key lib py rnd pyd m w streams app body key g)
        ⊎ Entitled text header body (after_key lib py rnd pyd m w streams app body key g)
  unfolding after_key
  after_key-Guarded text header body (refused e) g laws h =
      inl (record { sent = refl; state = refl; held = refl; cache = refl; rows = refl })
  after_key-Guarded text header body (accepted id) g laws h =
      elim (Option-cases (parse_request pyd body)) [
        | inl e ↦
            rw (e, after_key)
              (inl (record { sent = refl; state = refl; held = refl; cache = refl; rows = refl }))
        | inr (r, e) ↦
            rw (e, after_key) (visited-Guarded text header body id g r laws e (h id refl))
      ]

  -- Where requests without a key are not allowed, a call of the endpoint either has no effect but on the gauge
  -- and the gateway's limiter: nothing is sent, no state of a provider, no row, permit or entry of the cache
  -- changes; or it comes with a token whose hash is that of a gateway key, its body is a valid request, whose
  -- size and max_tokens are within the configured limits, and it is answered under the id of that token.
  pub post-Guarded :
      (text : Text) (now : ℕ) (header : Option String) (body : Json)
      → IsPydantic pyd
      → app.settings.allow_unauthenticated ≡ false
      → let v = post lib py rnd pyd m text now w streams header body app in
        Untouched v ⊎ Entitled text header body v
  unfolding post authenticate
  post-Guarded text now header body laws closed =
      after_key-Guarded text header body _ _ laws
        (λ id q. rw (sym closed) (limited-accepted now _ app.gateway_limiter id q))
