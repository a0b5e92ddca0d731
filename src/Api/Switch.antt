-- ===== src/Api/Switch.antt =====
-- What the two switching endpoints of app/api/admin.py change, and for whom.
use noxis_api_provider.Prelude.{
  ℕ, String, ◌≡◌, ◌≢◌, refl, ◌∙◌, ◌⊎◌, inl, inr, Bool, true, false, not, Option, some, List, [],
  ◌∷◌, ◌++◌, Bool-cases, str_eq, if◌then◌else◌, arith,
}
use noxis_api_provider.Errors.{NoxisError}
use noxis_api_provider.ProviderRegistry.{ProviderRegistry, is_admin_disabled, is_known, set_enabled}
use noxis_api_provider.ProviderRegistry.Switches.{is_admin_disabled-set_enabled}
use noxis_api_provider.Security.{Text, Result, accepted, refused, extract_bearer_token}
use noxis_api_provider.Security.Access.{require_master-accepted}
use noxis_api_provider.GatewayRateLimiter.{GatewayRateLimiter}
use noxis_api_provider.Deps.{authenticate}
use noxis_api_provider.App.{text_of, App, AuditLogRecord}
use noxis_api_provider.Api.Admin.{
  then_master, as_master, guarded, switch, admin_enable, admin_disable,
}

-- The row of the audit log.
abbrev pub audit_row : String → Bool → String → AuditLogRecord
audit_row id on name = record {
  actor_key_id = id;
  action = if on then "provider_enable" else "provider_disable";
  details = ("provider", name) ∷ [];
}

-- The header has the master key, by its hash.
pub record IsMaster (py : Text) (header : Option String) (master_key : String) : Type 0 where
  pub token : String
  pub given : extract_bearer_token py header ≡ some token
  pub is_key : py.hash_key token ≡ py.hash_key master_key
  pub is_set : master_key ≢ ""

-- The provider is switched, nobody else is, and the log has one row more.
pub record Switched (on : Bool) (name : String) (r r' : ProviderRegistry)
    (log log' : List AuditLogRecord) : Type 0 where
  pub known : is_known name r ≡ true
  pub flags :
      (j : String)
      → is_admin_disabled j r' ≡ (if str_eq name j then not on else is_admin_disabled j r)
  pub actor : String
  pub logged : log' ≡ log ++ audit_row actor on name ∷ []

set_enabled-known :
    (name : String) (on : Bool) (r : ProviderRegistry) → (set_enabled name on r).0 ≡ is_known name r
unfolding set_enabled
set_enabled-known name on r = elim (Bool-cases (is_known name r)) [
  | inl e ↦ rw (e, set_enabled) refl
  | inr e ↦ rw (e, set_enabled) refl
]

module _ {ℓ} {F : Type ℓ} {C : Type 0} where
  abbrev Kept : Result Bool → App F C → App F C → Type ℓ
  Kept answer app app' =
      (e : NoxisError) × (answer ≡ refused e)
      × (app'.shared ≡ app.shared)
      × (app'.audits ≡ app.audits)

  -- What an endpoint that switches may do: switch for the master, or refuse and keep providers and log.
  abbrev pub Effect :
      Text → Option String → Bool → String → App F C → Result Bool × App F C → Type ℓ
  Effect py header on name app (answer, app') =
      ((answer ≡ accepted on)
        × IsMaster py header (text_of app.settings.noxis_master_key)
        × Switched on name app.shared.registry app'.shared.registry app.audits app'.audits)
      ⊎ Kept answer app app'

  switch-Effect :
      (py : Text) (header : Option String) (on : Bool) (name id : String) (app : App F C)
      → IsMaster py header (text_of app.settings.noxis_master_key)
      → Effect py header on name app (switch on name id app)
  unfolding switch
  switch-Effect py header on name id app m =
      let r = app.shared.registry in
      let same = set_enabled-known name on r in
      elim (Bool-cases (is_known name r)) [
        | inl e ↦
            rw (same ∙ e, switch)
              (inl (
                refl,
                m,
                record {
                  known = e;
                  flags = λ j. ground (arith, is_admin_disabled-set_enabled name j on r, e);
                  actor = id;
                  logged = refl;
                },
              ))
        | inr e ↦ rw (same ∙ e, switch) (inr (_, refl, refl, refl))
      ]

  then_master-IsMaster :
      (py : Text) (header : Option String) (app : App F C) (r : Result String) (id : String)
      → then_master py header app r ≡ accepted id
      → IsMaster py header (text_of app.settings.noxis_master_key)
  unfolding then_master
  then_master-IsMaster py header app (refused e) id q = absurd cc
  then_master-IsMaster py header app (accepted i) id q =
      let (token, (given, (is_key, (is_set, same)))) =
        require_master-accepted py header (text_of app.settings.noxis_master_key) i id q in
      record { token = token; given = given; is_key = is_key; is_set = is_set }

  abbrev seen : Text → ℕ → Option String → App F C → Result String × GatewayRateLimiter
  seen py now header app =
      authenticate py now header app.authenticator app.settings.allow_unauthenticated
        app.gateway_limiter

  guarded-Effect :
      (py : Text) (now : ℕ) (header : Option String) (on : Bool) (name : String) (app : App F C)
      → Effect py header on name app (guarded (switch on name) (as_master py now header app))
  unfolding guarded as_master
  guarded-Effect py now header on name app =
      through (then_master py header app (seen py now header app).0)
        (then_master-IsMaster py header app (seen py now header app).0)
    where
      through :
          (r : Result String)
          → ((id : String)
              → r ≡ accepted id
              → IsMaster py header (text_of app.settings.noxis_master_key))
          → Effect py header on name app (
              guarded
                (switch on name)
                (r, record app { gateway_limiter = (seen py now header app).1 }))
      through (refused e) master = inr (e, refl, refl, refl)
      through (accepted id) master =
          switch-Effect py header on name id
            (record app { gateway_limiter = (seen py now header app).1 }) (master id refl)

  -- Enabling and disabling a provider: the master alone gets it done, for a provider of the registry; then
  -- that provider is switched and no other, and the log has one row more. Any other call is refused,
  -- whether for its key, its rate or the name, and leaves providers and log as they were.
  pub admin_switch-Effect :
      (py : Text) (now : ℕ) (header : Option String) (name : String) (app : App F C)
      → Effect py header true name app (admin_enable py now header name app)
        × Effect py header false name app (admin_disable py now header name app)
  unfolding admin_enable admin_disable
  admin_switch-Effect py now header name app =
      (guarded-Effect py now header true name app, guarded-Effect py now header false name app)
