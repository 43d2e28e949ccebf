-- ===== src/World.antt =====
-- What the hooks of the extension panel share: the stores, `chrome.storage.local`, the tabs, and a
-- record of what was asked of other parties (messages to the background worker, route changes,
-- requests). Lists of what was asked are newest first.
use bsg.Prelude.{Bool, Option, none, some, List, [], ◌∷◌, if◌then◌else◌, Text}
use bsg.Prelude.Int.{Number}
use bsg.Stores.Room.{RoomState, EventType, User}
use bsg.Stores.User.{UserState}
use bsg.Navigation.{Tabs}

-- The keys of `chrome.storage.local` that the panel writes; `none` is a missing key.
pub record LocalStorage : Type 0 where
  pub active_room_id : Option Text
  pub next_problem : Option Text
  pub round_end_time : Option Number
  pub problems : Option (List Text)
  pub last_game_event : Option EventType
  pub user : Option User

pub data Message : Type 0 where
  problem_progress_reset : Text → Message
  logout : Message

pub record World : Type 0 where
  -- typeof chrome !== 'undefined', with the parts that are tested beside it
  pub available : Bool
  pub user : UserState
  pub room : RoomState
  pub storage : LocalStorage
  pub badge : Text
  pub tabs : Tabs
  pub messages : List Message
  pub routes : List Text
  -- rooms whose participants were requested
  pub refreshes : List Text

abbrev pub on_room : (RoomState → RoomState) → World → World
on_room f w = record w { room = f w.room }

abbrev pub on_user : (UserState → UserState) → World → World
on_user f w = record w { user = f w.user }

-- A write that stands under the test that the extension's storage is there.
abbrev pub on_storage : (LocalStorage → LocalStorage) → World → World
on_storage f w = record w { storage = if w.available then f w.storage else w.storage }

abbrev pub set_badge : Text → World → World
set_badge t w = record w { badge = if w.available then t else w.badge }

abbrev pub send_message : Message → World → World
send_message m w = record w { messages = if w.available then m ∷ w.messages else w.messages }

abbrev pub push : Text → World → World
push route w = record w { routes = route ∷ w.routes }

abbrev pub request_participants : Text → World → World
request_participants room_id w = record w { refreshes = room_id ∷ w.refreshes }

-- A room id that is neither null nor empty.
abbrev pub truthy_id : Option Text → Option Text
truthy_id none = none
truthy_id (some []) = none
truthy_id (some (c ∷ s)) = some (c ∷ s)
