-- ===== src/Chat.antt =====
-- The chat of the extension panel: bsg-frontend/apps/extension/hooks/useChatSocket.ts. Here are its
-- state and the small functions; the children have the rest.
pub mod Groups
pub mod Display
pub mod Input
pub mod Socket
pub mod Receive
use bsg.Prelude.{
  ℕ, Bool, true, false, ◌&&◌, not, Option, none, some, List, [], ◌∷◌, if◌then◌else◌, Text,
}
use bsg.Stores.Room.{RoomState, TabName, chat}
use bsg.Stores.User.{UserState}
use bsg.Stores.Panel.{PanelState}
use bsg.Stores.Settings.{SettingsState}

-- A chat line. `user_name` and `user_photo` may be missing.
pub record ChatMessage : Type 0 where
  pub user_handle : Text
  pub user_name : Option Text
  pub user_photo : Option Text
  pub text : Text
  pub room_id : Option Text
  pub is_system : Bool

pub data ReadyState : Type 0 where
  connecting open_state closed : ReadyState

pub data Sound : Type 0 where
  message_sent message_received : Sound

-- What happened on the sockets, as far as the server can see it.
pub data Traffic : Type 0 where
  join_room : Text → Option Text → Text → Traffic
  chat_message : Text → Option Text → Option Text → Text → Text → Traffic
  disconnected : Traffic

-- The refs and the state of the hook, with the stores that it reads and writes. `traffic` and
-- `sounds` are newest first. `runtime` is the test that `chrome.runtime.getURL` is there.
pub record ChatState : Type 0 where
  pub socket : Option ReadyState
  pub pending_room : Option Text
  pub joined_room : Option Text
  pub suppress_sounds : Bool
  pub pending_message : Option Text
  pub messages : List ChatMessage
  pub input_text : Text
  pub toast : Option Text
  pub traffic : List Traffic
  pub sounds : List Sound
  pub runtime : Bool
  pub user : UserState
  pub room : RoomState
  pub panel : PanelState
  pub settings : SettingsState

abbrev pub on_room : (RoomState → RoomState) → ChatState → ChatState
on_room f s = record s { room = f s.room }

abbrev pub play_chat_sound : Sound → ChatState → ChatState
play_chat_sound sound s = record s {
  sounds =
      if s.runtime && s.settings.chat_notifications_enabled then sound ∷ s.sounds else s.sounds;
}

abbrev pub is_chat_tab : TabName → Bool
is_chat_tab chat = true
is_chat_tab _ = false

abbrev pub is_chat_visible : ChatState → Bool
is_chat_visible s = is_chat_tab s.room.active_tab && not s.panel.is_folded

abbrev pub is_open : Option ReadyState → Bool
is_open (some open_state) = true
is_open _ = false
