-- ===== src/Stores/Settings.antt =====
-- The settings store: bsg-frontend/apps/extension/stores/useSettingsStore.ts. What
-- `chrome.storage.local` holds under the store's two keys is a value of its own.
use bsg.Prelude.{Bool, true, ◌≡◌, refl, Text, codes, if◌then◌else◌}
use bsg.Prelude.Json.{Json, bool, str, is_str}

pub data Theme : Type 0 where
  auto dark light : Theme

pub record SettingsState : Type 0 where
  pub chat_notifications_enabled : Bool
  pub theme_preference : Theme

-- The stored values, `undefined` where the key is missing.
pub record Saved : Type 0 where
  pub chat_notifications_enabled : Json
  pub theme_preference : Json

abbrev pub settings_store_init : SettingsState
settings_store_init = record { chat_notifications_enabled = true; theme_preference = auto }

abbrev pub theme_name : Theme → Text
theme_name auto = codes "auto"
theme_name dark = codes "dark"
theme_name light = codes "light"

-- `available` is the test that the extension's storage is there.
unfoldable pub set_chat_notifications_enabled :
    Bool → Bool → SettingsState × Saved → SettingsState × Saved
set_chat_notifications_enabled available enabled (s, d) = (
  record s { chat_notifications_enabled = enabled },
  if available then record d { chat_notifications_enabled = bool enabled } else d,
)

unfoldable pub set_theme_preference : Bool → Theme → SettingsState × Saved → SettingsState × Saved
set_theme_preference available pref (s, d) = (
  record s { theme_preference = pref },
  if available then record d { theme_preference = str (theme_name pref) } else d,
)

abbrev load_notifications : Json → SettingsState → SettingsState
load_notifications (bool b) s = record s { chat_notifications_enabled = b }
load_notifications v s = s

abbrev load_theme : Json → SettingsState → SettingsState
load_theme v s =
    if is_str v (codes "auto")
    then record s { theme_preference = auto }
    else if is_str v (codes "dark")
    then record s { theme_preference = dark }
    else if is_str v (codes "light")
    then record s { theme_preference = light }
    else s

unfoldable pub load_settings : Bool → SettingsState × Saved → SettingsState
load_settings available (s, d) =
    if available
    then load_theme d.theme_preference (load_notifications d.chat_notifications_enabled s)
    else s

-- A preference that was set while the storage is there is what any later session loads, whatever
-- that session's own values are.
load_settings_persisted :
    (enabled : Bool) (pref : Theme) (s fresh : SettingsState) (d : Saved)
    → load_settings true (
      fresh,
      (set_theme_preference true pref (set_chat_notifications_enabled true enabled (s, d))).1,
    )
      ≡ record { chat_notifications_enabled = enabled; theme_preference = pref }
unfolding load_settings set_theme_preference set_chat_notifications_enabled
load_settings_persisted enabled auto s fresh d = refl
load_settings_persisted enabled dark s fresh d = refl
load_settings_persisted enabled light s fresh d = refl
