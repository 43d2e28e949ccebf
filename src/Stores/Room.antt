-- ===== src/Stores/Room.antt =====
-- The room store: bsg-frontend/apps/extension/stores/useRoomStore.ts, with the types of
-- bsg-frontend/packages/models that it holds. Identifiers that the program's types promise to be
-- strings are texts; `null` is `none`.
pub mod Tabs
use bsg.Prelude.{ℕ, ◌+◌, Bool, true, false, Option, none, some, List, [], Text}
use bsg.Prelude.Int.{ℤ, Number}
use bsg.Prelude.Json.{Json}

pub data TabName : Type 0 where
  room_info chat leaderboard statistics settings : TabName

pub record User : Type 0 where
  pub id : Text
  pub name : Text
  pub email : Text
  pub photo : Text

pub data EventType : Type 0 where
  round_start next_problem round_end join_round : EventType

pub record GameEvent : Type 0 where
  pub type : EventType
  pub payload : Json
  pub timestamp : ℤ

pub record RoomState : Type 0 where
  pub is_in_room : Bool
  pub room_id : Option Text
  pub is_connected : Bool
  pub is_admin : Bool
  pub admin_id : Option Text
  pub room_code : Option Text
  pub participants : List User
  pub active_tab : TabName
  pub previous_tab : TabName
  pub is_round_started : Bool
  pub has_round_ended : Bool
  pub round_end_time : Option Number
  pub round_duration : Option ℤ
  pub last_game_event : Option GameEvent
  pub room_notice : Option Text
  pub problems : List Text
  pub last_participant_join_time : Option ℤ
  pub unread_count : ℕ

abbrev pub room_store_init : RoomState
room_store_init = record {
  is_in_room = false;
  room_id = none;
  is_connected = false;
  is_admin = false;
  admin_id = none;
  room_code = none;
  participants = [];
  active_tab = chat;
  previous_tab = chat;
  is_round_started = false;
  has_round_ended = false;
  round_end_time = none;
  round_duration = none;
  last_game_event = none;
  room_notice = none;
  problems = [];
  last_participant_join_time = none;
  unread_count = 0;
}

-- Each setter writes one field.
abbrev pub set_is_in_room : Bool → RoomState → RoomState
set_is_in_room b s = record s { is_in_room = b }

abbrev pub set_room_id : Option Text → RoomState → RoomState
set_room_id id s = record s { room_id = id }

abbrev pub set_is_connected : Bool → RoomState → RoomState
set_is_connected b s = record s { is_connected = b }

abbrev pub set_is_admin : Bool → RoomState → RoomState
set_is_admin b s = record s { is_admin = b }

abbrev pub set_admin_id : Text → RoomState → RoomState
set_admin_id id s = record s { admin_id = some id }

abbrev pub set_room_code : Option Text → RoomState → RoomState
set_room_code c s = record s { room_code = c }

abbrev pub set_participants : List User → RoomState → RoomState
set_participants us s = record s { participants = us }

-- `state.activeTab === 'settings' ? state.previousTab : state.activeTab`
abbrev pub tab_to_remember : TabName → TabName → TabName
tab_to_remember settings previous = previous
tab_to_remember active previous = active

abbrev pub remembered : TabName → RoomState → TabName
remembered settings s = tab_to_remember s.active_tab s.previous_tab
remembered tab s = s.previous_tab

unfoldable pub set_active_tab : TabName → RoomState → RoomState
set_active_tab tab s = record s { active_tab = tab; previous_tab = remembered tab s }

abbrev pub set_is_round_started : Bool → RoomState → RoomState
set_is_round_started b s = record s { is_round_started = b }

abbrev pub set_has_round_ended : Bool → RoomState → RoomState
set_has_round_ended b s = record s { has_round_ended = b }

abbrev pub set_round_end_time : Option Number → RoomState → RoomState
set_round_end_time t s = record s { round_end_time = t }

abbrev pub set_round_duration : Option ℤ → RoomState → RoomState
set_round_duration d s = record s { round_duration = d }

abbrev pub set_last_game_event : Option GameEvent → RoomState → RoomState
set_last_game_event e s = record s { last_game_event = e }

abbrev pub set_room_notice : Option Text → RoomState → RoomState
set_room_notice n s = record s { room_notice = n }

abbrev pub set_problems : List Text → RoomState → RoomState
set_problems ps s = record s { problems = ps }

abbrev pub set_last_participant_join_time : Option ℤ → RoomState → RoomState
set_last_participant_join_time t s = record s { last_participant_join_time = t }

abbrev pub increment_unread : RoomState → RoomState
increment_unread s = record s { unread_count = s.unread_count + 1 }

abbrev pub clear_unread : RoomState → RoomState
clear_unread s = record s { unread_count = 0 }

unfoldable pub init_room : Text → Text → Text → Bool → RoomState → RoomState
init_room id code admin is_admin s = record s {
  room_id = some id;
  room_code = some code;
  admin_id = some admin;
  is_admin = is_admin;
  is_in_room = true;
  is_round_started = false;
  has_round_ended = false;
  round_end_time = none;
  unread_count = 0;
}

abbrev pub reset_room : RoomState → RoomState
reset_room s = room_store_init
