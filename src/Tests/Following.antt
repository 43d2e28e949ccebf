-- ===== src/Tests/Following.antt =====
-- Tests of what follows the storage and the clipboard: bsg-frontend/extension/contentScript.js,
-- bsg-frontend/extension/background.js and bsg-frontend/apps/extension/hooks.
use bsg.Prelude.{Bool, true, false, none, some, List, [], ◌∷◌, ◌≡◌, refl, Text, codes, text_eq, ◌⊎◌}
use bsg.Page.Themes
use bsg.Page.Themes.{Themes, Change, lc_switched, preference, loaded, handle_left, answered}
use bsg.Page.Themes.Follows.{IsThemed, run-IsThemed}
use bsg.Worker.Clipboard.{CopyState, CopyFate, copy_room_code}
use bsg.Worker.Clipboard.Copied.{Copied, copy_room_code-Copied}
use bsg.Worker.Touched.{SessionStorage, works, set_rejects, touch, reset, touched}
use bsg.TouchedView
use bsg.TouchedView.{ViewEvent, requested, delivered}
use bsg.TouchedView.Agrees.{overtaken, run-Agrees}
use bsg.Addresses.{Env, StoredConfig, start}
use bsg.Addresses.Stuck.{start-stuck}

abbrev dark_page : Themes
dark_page = record {
  theme_preference = none;
  lc_theme = some (codes "dark");
  prefers_dark = true;
  light_page = false;
  light_background = false;
  light_handle = false;
  mounted = true;
  reads = [];
  page_read = none;
}

abbrev switches : List Change
switches =
    lc_switched (some (codes "light"))
    ∷ preference (some (codes "dark"))
    ∷ lc_switched (some (codes "dark"))
    ∷ answered
    ∷ preference (some (codes "light"))
    ∷ answered
    ∷ answered
    ∷ answered
    ∷ answered
    ∷ []

run-IsThemed_example : IsThemed (Themes.run (loaded ∷ switches) dark_page)
unfolding Themes.run
run-IsThemed_example =
    run-IsThemed switches dark_page refl refl
      (refl, (refl, (refl, (refl, (refl, (refl, (refl, (refl, (refl, tt))))))))) refl

light_at_last : (Themes.run (loaded ∷ switches) dark_page).light_background ≡ true
unfolding Themes.run
light_at_last = refl

-- The handle is dark where the settings store 'auto', though the system's theme is light.
dark_handle :
    (Themes.leave_handle record dark_page {
      theme_preference = some (codes "auto");
      prefers_dark = false;
    }).light_handle
    ≡ false
unfolding Themes.leave_handle
dark_handle = refl

abbrev nothing_copied : CopyState
nothing_copied = record {
  clipboard = [];
  offscreen_created = false;
  has_document = false;
  documents = 0;
  is_copied = false;
}

-- Only the offscreen document's command works.
abbrev by_command : CopyFate
by_command = record {
  has_offscreen_api = true;
  asks_document = true;
  creates_document = true;
  delivers = true;
  offscreen_writes = false;
  offscreen_command = some true;
  worker_writes = false;
  panel_sends = true;
  panel_answered = true;
  panel_command = false;
}

copy_room_code-Copied_example :
    Copied by_command
      (codes "abc")
      []
      (copy_room_code by_command (some (codes "abc")) nothing_copied)
copy_room_code-Copied_example = copy_room_code-Copied by_command (codes "abc") nothing_copied refl

copied_by_command :
    (copy_room_code by_command (some (codes "abc")) nothing_copied).clipboard ≡ codes "abc"
unfolding copy_room_code
copied_by_command = refl

-- Where every way fails, the panel shows the code as copied all the same.
abbrev by_nothing : CopyFate
by_nothing = record by_command { offscreen_command = some false }

copied_by_nothing :
    ((copy_room_code by_nothing (some (codes "abc")) nothing_copied).is_copied ≡ true)
    × ((copy_room_code by_nothing (some (codes "abc")) nothing_copied).clipboard ≡ [])
unfolding copy_room_code
copied_by_nothing = (refl, refl)

abbrev untouched : SessionStorage
untouched = record { touched_slugs = none; touched_slugs_round = none; writes = 0 }

abbrev views : List ViewEvent
views =
    requested works (touch (codes "lru"))
    ∷ ViewEvent.answered
    ∷ delivered
    ∷ requested set_rejects (reset (codes "r2"))
    ∷ requested works (touch (codes "sum"))
    ∷ delivered
    ∷ delivered
    ∷ []

-- The news of a slug are told before the read, made when there was none, is answered.
abbrev late_views : List ViewEvent
late_views = requested works (touch (codes "lru")) ∷ delivered ∷ ViewEvent.answered ∷ []

run-Agrees_example :
    ((TouchedView.run views (TouchedView.mount untouched)).slugs
      ≡ touched (TouchedView.run views (TouchedView.mount untouched)).storage)
    ⊎ ((overtaken views ≡ true)
        × ((TouchedView.run views (TouchedView.mount untouched)).slugs ≡ touched untouched))
unfolding TouchedView.run TouchedView.mount bsg.Worker.Touched.handle
run-Agrees_example = run-Agrees views untouched refl refl refl

both_seen :
    (TouchedView.run views (TouchedView.mount untouched)).slugs ≡ codes "lru" ∷ codes "sum" ∷ []
unfolding TouchedView.run TouchedView.mount bsg.Worker.Touched.handle
both_seen = refl

stale_view : (TouchedView.run late_views (TouchedView.mount untouched)).slugs ≡ []
unfolding TouchedView.run TouchedView.mount bsg.Worker.Touched.handle
stale_view = refl

abbrev built : Env
built = record { server = none; rtc = none }

abbrev nothing_stored : StoredConfig
nothing_stored = record { config_server_url = none; config_rtc_service_url = none }

abbrev second_local : Text → Bool
second_local url = text_eq url (codes "http://localhost:3000")

start-stuck_example :
    (start true
      (λ url. false)
      built
      (start true second_local built nothing_stored).stored).server_url
    ≡ some (codes "http://localhost:3000")
unfolding bsg.Addresses.detect_among
start-stuck_example =
    start-stuck second_local (λ url. false) built nothing_stored (codes "http://localhost:3000")
      refl refl
