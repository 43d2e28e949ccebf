-- ===== src/Page/Themes.antt =====
-- The theme of the panel: bsg-frontend/extension/contentScript.js from `getResolvedTheme` to the
-- listener of `themePreference`, with the colour of the handle, and `useThemeSync` of
-- bsg-frontend/apps/extension/pages/_app.tsx, which gets its messages. A read of the storage finds
-- what is stored when it is asked for, and the reads of the content script are answered later, in
-- their order; the handle's read, on which only its colour depends, is answered at once. A
-- message to the panel's page is handled when it is posted, if the page listens by then, and the page
-- hears of a change of the preference when it is stored.
pub mod Wanted
pub mod Follows
use bsg.Prelude.{
  Bool, true, false, ◌&&◌, ◌||◌, not, Option, none, some, List, [], ◌∷◌, ◌++◌, if◌then◌else◌, Text,
  codes, text_eq, option_eq, nonempty,
}

-- A read of the preference that is not answered yet, with what it found: for syncTheme, or for the
-- observer of LeetCode's class and the listener of the system's theme.
pub data ThemeRead : Type 0 where
  sync_read follow_read : Option Text → ThemeRead

pub record Themes : Type 0 where
  -- chrome.storage.local.themePreference
  pub theme_preference : Option Text
  -- localStorage's lc-theme
  pub lc_theme : Option Text
  -- (prefers-color-scheme: dark)
  pub prefers_dark : Bool
  -- whether the class of the panel's page, and the panel's background, are those of the light theme
  pub light_page : Bool
  pub light_background : Bool
  pub light_handle : Bool
  -- whether the panel's page has its listeners
  pub mounted : Bool
  pub reads : List ThemeRead
  -- the page's own first read
  pub page_read : Option (Option Text)

-- getResolvedTheme
unfoldable pub resolved_theme : Option Text → Bool → Text
resolved_theme stored prefers_dark =
    if option_eq stored (some (codes "dark"))
    then codes "dark"
    else if option_eq stored (some (codes "light"))
    then codes "light"
    else if prefers_dark
    then codes "dark"
    else codes "light"

-- pref && pref !== 'auto'
abbrev pub chosen : Option Text → Option Text
chosen none = none
chosen (some pref) = if nonempty pref && not (text_eq pref (codes "auto")) then some pref else none

abbrev pub is_light : Text → Bool
is_light theme = text_eq theme (codes "light")

-- applyTheme
abbrev pub apply_theme : Text → Themes → Themes
apply_theme theme t = record t { light_page = is_light theme }

-- handleMessage of a BSG_THEME_UPDATE
abbrev pub handle_message : Text → Themes → Themes
handle_message theme t = if t.mounted then apply_theme theme t else t

unfoldable pub send_theme_to_iframe : Text → Themes → Themes
send_theme_to_iframe theme t = handle_message theme record t { light_background = is_light theme }

abbrev pub send_resolved : Themes → Themes
unfolding resolved_theme send_theme_to_iframe
send_resolved t = send_theme_to_iframe (resolved_theme t.lc_theme t.prefers_dark) t

abbrev pub send_chosen : Option Text → Themes → Themes
unfolding resolved_theme send_theme_to_iframe
send_chosen none t = send_resolved t
send_chosen (some pref) t = send_theme_to_iframe pref t

unfoldable pub sync_theme : Themes → Themes
sync_theme t = record t { reads = t.reads ++ sync_read t.theme_preference ∷ [] }

-- The observer of LeetCode's class, and the listener of the system's theme.
unfoldable pub follow_theme : Themes → Themes
follow_theme t = record t { reads = t.reads ++ follow_read t.theme_preference ∷ [] }

abbrev pub follow_chosen : Option Text → Themes → Themes
unfolding resolved_theme send_theme_to_iframe
follow_chosen none t = send_resolved t
follow_chosen (some pref) t = t

-- The callback of the first open read.
unfoldable pub deliver_first : List ThemeRead → Themes → Themes
unfolding resolved_theme send_theme_to_iframe
deliver_first [] t = t
deliver_first (sync_read pref ∷ rs) t = send_chosen (chosen pref) record t { reads = rs }
deliver_first (follow_read pref ∷ rs) t = follow_chosen (chosen pref) record t { reads = rs }

-- What the page shows first, by its own reading of the storage.
abbrev pub first_theme : Option Text → Themes → Themes
first_theme none t = if t.prefers_dark then t else apply_theme (codes "light") t
first_theme (some pref) t = apply_theme pref t

unfoldable pub mount : Themes → Themes
mount t = record t { mounted = true; page_read = some t.theme_preference }

unfoldable pub read_first : Option (Option Text) → Themes → Themes
read_first none t = t
read_first (some pref) t = first_theme (chosen pref) record t { page_read = none }

-- handleStorageChange
abbrev pub page_change : Option Text → Themes → Themes
page_change none t = t
page_change (some pref) t = if t.mounted then apply_theme pref t else t

-- A change of the preference, which the page and the content script both hear of.
unfoldable pub preference_changed : Option Text → Themes → Themes
unfolding sync_theme
preference_changed pref t =
    sync_theme (page_change (chosen pref) record t { theme_preference = pref })

-- The handle's colour behind a drag and a hover.
abbrev pub is_light_handle : Option Text → Bool → Bool
is_light_handle none prefers_dark = not prefers_dark
is_light_handle (some pref) prefers_dark =
    is_light pref || (not (nonempty pref) && not prefers_dark)

unfoldable pub leave_handle : Themes → Themes
leave_handle t = record t { light_handle = is_light_handle t.theme_preference t.prefers_dark }

pub data Change : Type 0 where
  -- LeetCode's theme is switched, which changes its class.
  lc_switched : Option Text → Change
  system_switched : Bool → Change
  preference : Option Text → Change
  -- The iframe's load event, or a reload that takes the page's listeners away first.
  loaded reloading page_mounted handle_left : Change
  -- The callback of the content script's next read, and of the page's own.
  answered page_answered : Change

unfoldable pub step : Change → Themes → Themes
unfolding follow_theme preference_changed sync_theme mount leave_handle deliver_first read_first
step (lc_switched theme) t = follow_theme record t { lc_theme = theme }
step (system_switched dark) t = follow_theme record t { prefers_dark = dark }
step (preference pref) t = preference_changed pref t
step loaded t = sync_theme t
step reloading t = record t { mounted = false; page_read = none }
step page_mounted t = mount t
step handle_left t = leave_handle t
step answered t = deliver_first t.reads t
step page_answered t = read_first t.page_read t

unfoldable pub run : List Change → Themes → Themes
unfolding step
run [] t = t
run (c ∷ cs) t = run cs (step c t)
