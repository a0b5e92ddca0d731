-- ===== src/Config/Once.antt =====
-- get_settings of app/config.py reads the environment once.
use noxis_api_provider.Prelude.{◌≡◌, refl, Option, none, some}
use noxis_api_provider.Config.{Settings, get_settings}

-- A later call gives the settings of an earlier one, whatever the environment is by then.
pub get_settings-again :
    (environment later : Settings) (kept : Option Settings)
    → (get_settings later (get_settings environment kept).1).0 ≡ (get_settings environment kept).0
unfolding get_settings
get_settings-again environment later none = refl
get_settings-again environment later (some s) = refl
