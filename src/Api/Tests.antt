-- ===== src/Api/Tests.antt =====
-- The theorems on app/api at concrete inputs: the application of Samples.
use noxis_api_provider.Prelude.{
  String, ◌≡◌, ◌⊎◌, if◌then◌else◌, List, arith, true, false, Option, some, none, [], map, keep, ◌≢◌,
  str_eq, refl, pos,
}
use noxis_api_provider.Json.{Json, Fields}
use noxis_api_provider.Provider.{Provider, has_text}
use mathlib.Core.List.{Perm}
use noxis_api_provider.Api.Admin.{
  admin_enable, admin_disable, provider_entries, health_entry, config_entry,
}
use noxis_api_provider.Api.Switch.{Effect, admin_switch-Effect}
use noxis_api_provider.Api.Listing.{with_secrets, lists-hide}
use noxis_api_provider.Api.Health.{health, providers_list, status}
use noxis_api_provider.Api.Embeddings.{
  EmbeddingsRequest, EmbeddingsCall, EmbeddingsAnswer, Input, Upstream, responds, raises,
  unsupported, embed,
}
use noxis_api_provider.Api.FirstGood.{Ascending, is_asked, Ends, embed-Ends}
use noxis_api_provider.Float.Milli.{Milli, milli_float}
use noxis_api_provider.Cache.{AnyCache, any_cache}
use noxis_api_provider.Chat.Exchange.{World}
use noxis_api_provider.Chat.Tests.{library, python}
use noxis_api_provider.Streaming.Tests.{broken_off}
use noxis_api_provider.Schemas.Tests.{pydantic, pydantic-IsPydantic, body}
use noxis_api_provider.Api.Completions.{Messages, Visit, post}
use noxis_api_provider.Api.Guarded.{Untouched, Entitled, post-Guarded}
use noxis_api_provider.App.{new_app}
use noxis_api_provider.Samples
use noxis_api_provider.Samples.{plain_text, app, registry, server, highest_draw}

admin_switch-Effect_example :
    Effect plain_text
      (some "Bearer k")
      true
      "llm7"
      app
      (admin_enable plain_text 7 (some "Bearer k") "llm7" app)
    × Effect plain_text
        (some "Bearer k")
        false
        "llm7"
        app
        (admin_disable plain_text 7 (some "Bearer k") "llm7" app)
admin_switch-Effect_example = admin_switch-Effect plain_text 7 (some "Bearer k") "llm7" app

-- No provider of Samples has a key.
abbrev no_key : Provider → Option String
no_key p = if has_text p.config.api_key then some "other" else none

same_truth : (p : Provider) → has_text (no_key p) ≡ has_text p.config.api_key
same_truth p = ground arith

lists-hide_example :
    let other = with_secrets no_key (some "z") "c" none app in
    (provider_entries other ≡ provider_entries app)
    × (map health_entry other.shared.registry.providers
        ≡ map health_entry app.shared.registry.providers)
    × (config_entry other ≡ config_entry app)
    × (health other ≡ health app)
    × ((providers_list (λ name. 9) other).0 ≡ (providers_list (λ name. 9) app).0)
    × (status (λ n rows. rows) other ≡ status (λ n rows. rows) app)
lists-hide_example =
    lists-hide (λ name. 9) (λ n rows. rows) no_key (some "z") "c" none app same_truth

abbrev payload : EmbeddingsRequest
payload = record { model = "text-1"; input = Input.text "hello"; encoding_format = none }

-- The first upstream fails, the second answers.
abbrev upstream : String → Upstream
upstream name =
    if str_eq name "llm7" then responds 200 "{}" (some (Json.obj Fields.end)) else raises

abbrev outcome : EmbeddingsAnswer × List EmbeddingsCall
outcome = embed payload "embd-1" upstream registry

embed-Ends_example :
    (order : List Provider) × Perm order (keep (is_asked "text-1" registry) registry.providers)
    × Ascending order
    × (((order ≡ []) × (outcome ≡ (unsupported, [])))
        ⊎ ((order ≢ []) × Ends payload "embd-1" upstream order outcome))
embed-Ends_example = embed-Ends payload "embd-1" upstream registry

-- The application of Samples, with no other task running.
abbrev alone : World Milli (AnyCache server)
alone = record {
  request_id = "req-1";
  new_id = "chatcmpl-1";
  created = pos 0;
  looked_at = 4;
  called_at = 5;
  written_at = 6;
  stored_at = 7;
  rounds = Samples.world;
  waiting = λ d. d;
  meanwhile = λ d. d;
  writing = λ d. d;
  reads = none;
}

abbrev messages : Messages
messages = record { unprocessable = Json.null; unavailable = λ e. "failed" }

abbrev visit : Visit Milli (AnyCache server)
visit =
    post library python highest_draw pydantic messages plain_text 7 alone broken_off
      (some "Bearer k") body app

closed : app.settings.allow_unauthenticated ≡ false
unfolding new_app
closed = refl

post-Guarded_example :
    Untouched library python highest_draw pydantic messages alone broken_off app visit
    ⊎ Entitled library python highest_draw pydantic messages alone broken_off app plain_text
        (some "Bearer k")
        body
        visit
post-Guarded_example =
    post-Guarded library python highest_draw pydantic messages alone broken_off app plain_text 7
      (some "Bearer k") body pydantic-IsPydantic closed
