-- ===== src/App/Tests.antt =====
-- The theorems on app/main.py and app/api/deps.py at concrete inputs.
use noxis_api_provider.Prelude.{◌≤◌, ◌≡◌, refl, some, none, List, [], ◌∷◌, false, count, arith}
use noxis_api_provider.Float.Milli.{Milli}
use noxis_api_provider.Usage.{UsageRecord}
use noxis_api_provider.Adapter.{take_chars, drop_chars}
use noxis_api_provider.Security.{
  accepted, authenticator, key_id, extract_bearer_token, require_master,
}
use noxis_api_provider.GatewayRateLimiter.Bound.{in_minute, fresh}
use noxis_api_provider.Deps.{authenticate}
use noxis_api_provider.Deps.Quota.{Call, admitted, admitted-le-rpm}
use noxis_api_provider.Errors.{NoxisError, rate_limit_error}
use noxis_api_provider.App.Http.{raised, serve}
use noxis_api_provider.App.Headers.{Sent, serve-Sent}
use noxis_api_provider.App.Entry.{master-admitted}
use noxis_api_provider.Samples.{plain_text, settings, server, registry, app}

abbrev no_rows : List (UsageRecord Milli)
no_rows = []

master-admitted_example :
    ((authenticate plain_text 7 (some "Bearer k") app.authenticator false app.gateway_limiter).0
      ≡ accepted (key_id plain_text "k"))
    × (require_master plain_text (some "Bearer k") "k" (key_id plain_text "k")
        ≡ accepted (key_id plain_text "k"))
unfolding extract_bearer_token take_chars drop_chars
master-admitted_example =
    master-admitted plain_text server (λ url. []) settings no_rows [] registry 7 (some "Bearer k")
      "k" refl (λ q. cc) refl (omega arith)

abbrev calls : List Call
calls = (1, some "Bearer k") ∷ (2, none) ∷ (3, some "Bearer k") ∷ []

admitted-le-rpm_example :
    count
      (in_minute 3)
      (admitted plain_text (authenticator plain_text ("k" ∷ [])) false "k" (fresh 1) [] calls)
    ≤ 1
admitted-le-rpm_example =
    admitted-le-rpm plain_text (authenticator plain_text ("k" ∷ [])) false 1 "k" calls 3
      (omega arith, (omega arith, (omega arith, tt)))

abbrev refusal : NoxisError
refusal = rate_limit_error "Too many requests."

serve-Sent_example : Sent none "req-1" (raised refusal) (serve none "req-1" (raised refusal))
serve-Sent_example = serve-Sent none "req-1" (raised refusal)
