-- ===== src/Tests/Chatting.antt =====
-- Tests of the chat: bsg-frontend/apps/extension/hooks/useChatSocket.ts.
use bsg.Prelude.{true, false, Option, none, some, List, [], ◌∷◌, map, ◌≡◌, refl, Text, codes}
use bsg.Prelude.Int.{pos}
use bsg.Prelude.Json.{Json, obj, str, field, end}
use bsg.Stores.Panel.{panel_store_init}
use bsg.Stores.Settings.{settings_store_init}
use bsg.Chat.{ChatState, ChatMessage}
use bsg.Chat.Groups.{grouped_messages, ungroup, ungroup-grouped_messages}
use bsg.Chat.Display.{shown_groups}
use bsg.Chat.Display.Whole.{bubble_of, shown_groups-grouped_messages}
use bsg.Chat.Socket.{connect, on_open, on_close, join_chat_room}
use bsg.Chat.Receive.{on_message}
use bsg.Chat.Receive.Quiet.{Received}
use bsg.Chat.Receive.Effects.{on_message-Received}
use bsg.Tests.{alice, in_room}

abbrev fresh : ChatState
fresh = record {
  socket = none;
  pending_room = none;
  joined_room = none;
  suppress_sounds = true;
  pending_message = none;
  messages = [];
  input_text = [];
  toast = none;
  traffic = [];
  sounds = [];
  runtime = true;
  user = alice;
  room = in_room;
  panel = panel_store_init;
  settings = settings_store_init;
}

-- Every text is a chat message of another user.
abbrev parse_hello : Text → Option Json
parse_hello t = some (
    obj (
      field (codes "status") (str (codes "ok")) (
        field (codes "responseType") (str (codes "chat-message")) (
          field (codes "message")
            (obj (
              field (codes "userHandle") (str (codes "u2"))
                (field (codes "data") (str (codes "hello")) end)))
            end))))

-- A room joined on a socket that is open, and then another user.
abbrev user_changed : ChatState
user_changed = connect (some (codes "u2")) (
    join_chat_room (some (codes "u1")) (codes "r1")
      (on_open (some (codes "u1")) none (connect (some (codes "u1")) fresh)))

-- Where the old socket's onclose comes after the new one's onopen, the new connection is in no room
-- and none is remembered; where it comes before, the room is joined again.
late_close :
    (on_close false (on_open (some (codes "u2")) (some (codes "r1")) user_changed)).traffic
    ≡ user_changed.traffic
unfolding on_open on_close connect join_chat_room
late_close = refl

early_close :
    (on_open (some (codes "u2")) (some (codes "r1")) (on_close false user_changed)).joined_room
    ≡ some (codes "r1")
unfolding on_open on_close connect join_chat_room
early_close = refl

on_message-Received_example :
    Received fresh (on_message parse_hello (pos 3) (some (codes "u1")) (codes "hi") fresh)
on_message-Received_example =
    on_message-Received parse_hello (pos 3) (some (codes "u1")) (codes "hi") fresh

abbrev line : Text → Text → ChatMessage
line user text = record {
  user_handle = user;
  user_name = none;
  user_photo = none;
  text = text;
  room_id = none;
  is_system = false;
}

abbrev lines : List ChatMessage
lines =
    line (codes "a") (codes "x") ∷ line (codes "a") (codes "y") ∷ line (codes "b") (codes "z") ∷ []

ungroup-grouped_messages_example : ungroup (grouped_messages lines) ≡ lines
ungroup-grouped_messages_example = ungroup-grouped_messages lines

abbrev announced : List ChatMessage
announced =
    record {
      user_handle = codes "System";
      user_name = some (codes "System");
      user_photo = none;
      text = codes "a joined";
      room_id = none;
      is_system = true;
    }
    ∷ lines

shown_groups-grouped_messages_example :
    shown_groups (some (codes "a")) (grouped_messages announced)
    ≡ map (bubble_of (some (codes "a"))) announced
shown_groups-grouped_messages_example =
    shown_groups-grouped_messages (some (codes "a")) announced (refl, (refl, (refl, (refl, tt))))
