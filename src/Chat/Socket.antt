-- ===== src/Chat/Socket.antt =====
-- The connection to the rtc service and the rooms joined on it: the socket effect without its
-- message handler, `joinChatRoom`, `handleSubmit`, `dismissToast` and `clearMessages` of
-- bsg-frontend/apps/extension/hooks/useChatSocket.ts.
use bsg.Prelude.{
  Bool, true, false, Option, none, some, [], ◌∷◌, if◌then◌else◌, Text, is_some, option_eq, trim,
}
use bsg.Stores.Room.{set_is_connected, set_last_game_event, clear_unread}
use bsg.World.{truthy_id}
use bsg.Chat.{
  ChatState, connecting, open_state, closed, join_room, chat_message, disconnected, on_room,
  is_open,
}

-- The effect on `userId`. Its cleanup closes the socket that was made for the user before, whose
-- onclose comes later; without a user no socket is made.
unfoldable pub connect : Option Text → ChatState → ChatState
connect user_id s = elim (truthy_id user_id) [
  | none ↦ record s { socket = if is_some s.socket then some closed else none }
  | some id ↦ record s {
    socket = some connecting;
    traffic = if is_some s.socket then disconnected ∷ s.traffic else s.traffic;
  }
]

-- ws.send of a join-room request, with the ref that remembers it
abbrev pub send_join : Text → Text → ChatState → ChatState
send_join user_id room_id s = record s {
  suppress_sounds = true;
  traffic = join_room user_id s.user.username room_id ∷ s.traffic;
  joined_room = some room_id;
}

-- pendingRoomIDRef.current || roomId
abbrev pub target_room : Option Text → Option Text → Option Text
target_room pending captured = elim (truthy_id pending) [
  | none ↦ truthy_id captured
  | some id ↦ some id
]

abbrev pub join_unless_joined : Text → Text → ChatState → ChatState
join_unless_joined user_id room_id s =
    if option_eq s.joined_room (some room_id) then s else send_join user_id room_id s

abbrev pub join_on_open : Option Text → Option Text → ChatState → ChatState
join_on_open (some id) (some target) s = join_unless_joined id target s
join_on_open _ _ s = s

-- ws.onopen. `user_id` and `room_id` are the values that the effect captured.
unfoldable pub on_open : Option Text → Option Text → ChatState → ChatState
on_open user_id room_id s =
    join_on_open (truthy_id user_id) (target_room s.pending_room room_id)
      (on_room (set_is_connected true) (record s { socket = some open_state }))

-- ws.onclose, of the socket that `socketRef` has or of one that was made before it
unfoldable pub on_close : Bool → ChatState → ChatState
on_close is_current s = on_room (set_is_connected false) (record s {
  socket = if is_current then some closed else s.socket;
  joined_room = none;
  traffic = if is_current then disconnected ∷ s.traffic else s.traffic;
})

abbrev pub send_join_if : Bool → Option Text → Text → ChatState → ChatState
send_join_if true (some id) room_id s = send_join id room_id s
send_join_if _ _ room_id s = s

unfoldable pub join_chat_room : Option Text → Text → ChatState → ChatState
join_chat_room user_id room_id s =
    let s₁ = on_room clear_unread (record s { suppress_sounds = true }) in
    if option_eq s.joined_room (some room_id)
    then record s₁ { pending_room = some room_id }
    else send_join_if (is_open s.socket) (truthy_id user_id) room_id (
        on_room (set_last_game_event none)
          (record s₁ { messages = []; pending_room = some room_id }))

abbrev pub send_chat_if : Bool → Option Text → Text → Text → ChatState → ChatState
send_chat_if true (some id) room_id text s = record s {
  traffic = chat_message id s.user.username s.user.icon_url room_id text ∷ s.traffic;
  pending_message = some text;
}
send_chat_if _ _ room_id text s = s

abbrev pub submit_text : Option Text → Option Text → Text → ChatState → ChatState
submit_text user_id (some room_id) (c ∷ text) s =
    send_chat_if (is_open s.socket) (truthy_id user_id) room_id (c ∷ text)
      (record s { toast = none })
submit_text user_id _ _ s = s

-- handleSubmit, where the elements of the chat are there; the jump button is not modelled. The box
-- is cleared only by the echo of the message.
unfoldable pub handle_submit : Option Text → ChatState → ChatState
handle_submit user_id s = submit_text user_id (truthy_id s.room.room_id) (trim s.input_text) s

abbrev pub dismiss_toast : ChatState → ChatState
dismiss_toast s = record s { toast = none }

abbrev pub clear_messages : ChatState → ChatState
clear_messages s = record s { messages = [] }
