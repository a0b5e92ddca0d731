-- ===== src/App/Entry.antt =====
-- Who gets into an application that app/main.py has started.
use noxis_api_provider.Prelude.{
  ℕ, ◌<◌, String, ◌≡◌, ◌≢◌, refl, Bool, true, false, Option, some, List, [], ◌∷◌, ◌++◌, map, any,
  In, In-map, inl, inr, str_eq, str_eq_iff, arith,
}
use noxis_api_provider.Dict
use noxis_api_provider.RateLimiter.{trim_hits}
use noxis_api_provider.GatewayRateLimiter.{admit, allow}
use noxis_api_provider.Security.{
  Text, accepted, authenticator, is_valid, key_id, extract_bearer_token, require_auth,
  require_master,
}
use noxis_api_provider.ProviderRegistry.{ProviderRegistry}
use noxis_api_provider.Cache.{Redis}
use noxis_api_provider.Usage.{UsageRecord}
use noxis_api_provider.Config.{Settings, pieces, key_if_set, gateway_keys}
use noxis_api_provider.Deps.{limited, authenticate}
use noxis_api_provider.App.{AuditLogRecord, new_app}

In-any : (h : String) (hs : List String) → In h hs → any (str_eq h) hs ≡ true
In-any h [] m = absurd m
In-any h (x ∷ hs) (inl e) = ground (arith, (str_eq_iff h x).1 e)
In-any h (x ∷ hs) (inr m) = ground (arith, In-any h hs m)

-- A token that is one of the keys is accepted under its id.
require_auth-admits :
    (py : Text) (header : Option String) (keys : List String) (token : String) (open_ : Bool)
    → extract_bearer_token py header ≡ some token
    → In token keys
    → require_auth py header (authenticator py keys) open_ ≡ accepted (key_id py token)
unfolding require_auth authenticator is_valid
require_auth-admits py header keys token open_ e m =
    rw
      (
        e,
        require_auth,
        In-any (py.hash_key token) (map py.hash_key keys) (In-map py.hash_key token keys m),
      )
      refl

first_allow :
    (now : ℕ) (id : String) (rpm : ℕ)
    → 0 < rpm
    → (allow now id (record { rpm = rpm; hits = [] })).0 ≡ true
unfolding allow admit trim_hits Dict.get_or
first_allow now id rpm h = ground arith

In-append_right : (k : String) (xs ys : List String) → In k ys → In k (xs ++ ys)
In-append_right k [] ys m = m
In-append_right k (x ∷ xs) ys m = inr (In-append_right k xs ys m)

module _ {ℓ} {F : Type ℓ} (py : Text) (redis : Redis) (from_url : String → redis.State)
    (s : Settings) (rows : List (UsageRecord F)) (audits : List AuditLogRecord)
    (registry : ProviderRegistry) where
  -- The first call to a new application, with any of its keys, is let through under the id of the key,
  -- where the configured rate is not 0.
  first_call-accepted :
      (now : ℕ) (header : Option String) (token : String)
      → extract_bearer_token py header ≡ some token
      → In token (gateway_keys py.strip s)
      → 0 < s.gateway_rate_limit_per_min
      → let app = new_app py redis from_url s rows audits registry in
        (authenticate py now header app.authenticator s.allow_unauthenticated app.gateway_limiter).0
        ≡ accepted (key_id py token)
  unfolding authenticate new_app limited
  first_call-accepted now header token e m h =
      rw
        (
          require_auth-admits py header (gateway_keys py.strip s) token s.allow_unauthenticated e m,
          limited,
          first_allow now (key_id py token) s.gateway_rate_limit_per_min h,
        )
        refl

  master-In :
      (key : String)
      → s.noxis_master_key ≡ some key
      → str_eq key "" ≡ false
      → In key (gateway_keys py.strip s)
  unfolding gateway_keys key_if_set
  master-In key e nonempty =
      In-append_right key (pieces py.strip s.noxis_gateway_keys) (key_if_set s.noxis_master_key)
        (rw (e, nonempty, key_if_set) (inl refl))

  -- The administrator gets in: where a master key is set and the gateway's limit is not 0 requests a minute,
  -- a new application lets a call with that key, as the header gives it, through `authenticate`, whether gateway keys are listed or not, and
  -- `require_master` accepts it.
  pub master-admitted :
      (now : ℕ) (header : Option String) (key : String)
      → s.noxis_master_key ≡ some key
      → key ≢ ""
      → extract_bearer_token py header ≡ some key
      → 0 < s.gateway_rate_limit_per_min
      → let app = new_app py redis from_url s rows audits registry in
        let id = key_id py key in
        ((authenticate py now header app.authenticator s.allow_unauthenticated
            app.gateway_limiter).0
          ≡ accepted id)
        × (require_master py header key id ≡ accepted id)
  unfolding require_master
  master-admitted now header key set nonempty e h =
      let some_text : str_eq key "" ≡ false = ground (arith, str_eq_iff key "", nonempty) in
      (
        first_call-accepted now header key e (master-In key set some_text) h,
        rw (e, require_master, some_text, (str_eq_iff (py.hash_key key) (py.hash_key key)).1 refl)
            refl,
      )
