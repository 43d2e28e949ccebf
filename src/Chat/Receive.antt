-- ===== src/Chat/Receive.antt =====
-- What a frame from the rtc service does: `ws.onmessage` of
-- bsg-frontend/apps/extension/hooks/useChatSocket.ts. `parse_json` is `JSON.parse`, `none` where it
-- throws; `now` is `Date.now()`. A field that the program's types promise to be a string is read as
-- the empty text where it is none.
pub mod Quiet
pub mod Effects
use bsg.Prelude.{
  Bool, true, false, ◌&&◌, ◌||◌, not, Option, none, some, List, [], ◌∷◌, ◌++◌, if◌then◌else◌, Text,
  codes, text_eq,
}
use bsg.Prelude.Int.{ℤ}
use bsg.Prelude.Json.{Json, str, null, truthy, or_json, get, get_opt, is_str, json_text, as_text}
use bsg.Prelude.Effects.{
  Outcome, Run, returns, throws, modify, need, gets, return, try_catch, ◌>>=◌, ◌>>◌,
}
use bsg.Stores.Room.{
  GameEvent, EventType, round_start, round_end, next_problem, join_round, increment_unread,
  set_last_participant_join_time, set_admin_id, set_is_admin, set_last_game_event,
}
use bsg.Chat.{
  ChatMessage, ChatState, Sound, message_sent, message_received, on_room, play_chat_sound,
  is_chat_visible,
}

abbrev pub text_of : Json → Text
text_of (str s) = s
text_of v = []

abbrev pub append_message : ChatMessage → ChatState → ChatState
append_message m s = record s { messages = s.messages ++ m ∷ [] }

abbrev pub system_line : Text → Json → ChatMessage
system_line text room_id = record {
  user_handle = codes "System";
  user_name = none;
  user_photo = none;
  text = text;
  room_id = as_text room_id;
  is_system = true;
}

-- `v === ref.current`, where the ref holds a string or null
abbrev pub is_pending : Json → Option Text → Bool
is_pending (str t) (some p) = text_eq t p
is_pending null none = true
is_pending v p = false

-- message.userHandle === userId
abbrev pub is_own : Json → Option Text → Bool
is_own = is_pending

-- JSON.parse(v), which first makes a string of `v`
abbrev pub parse_value : (Text → Option Json) → Json → Option Json
parse_value parse_json v = parse_json (json_text v)

-- The responses that the handler tells apart.
pub data FrameType : Type 0 where
  chat_frame user_joined user_left announcement admin_change : FrameType
  round_started round_ended round_joined next_problem_frame unknown : FrameType

-- The chain of tests on `responseType`.
unfoldable pub frame_type : Json → FrameType
frame_type type =
    if is_str type (codes "chat-message")
    then chat_frame
    else if is_str type (codes "user-joined")
    then user_joined
    else if is_str type (codes "user-left")
    then user_left
    else if is_str type (codes "system-announcement")
    then announcement
    else if is_str type (codes "admin-change")
    then admin_change
    else if is_str type (codes "round-start")
    then round_started
    else if is_str type (codes "round-end")
    then round_ended
    else if is_str type (codes "round-join")
    then round_joined
    else if is_str type (codes "next-problem")
    then next_problem_frame
    else unknown

-- The echo of the user's own pending message empties the box.
unfoldable pub clear_echoed : Bool → ChatState → ChatState
clear_echoed echoed s = record s {
  pending_message = if echoed then none else s.pending_message;
  input_text = if echoed then [] else s.input_text;
}

unfoldable pub sound_for : Bool → ChatState → ChatState
sound_for own s =
    let played = play_chat_sound (if own then message_sent else message_received) s in
    record s { sounds = if s.suppress_sounds then s.sounds else played.sounds }

-- isNewMessage && fromOtherUser && !chatVisible
abbrev pub counts_unread : Bool → ChatState → Bool
counts_unread own s = not s.suppress_sounds && (not own && not (is_chat_visible s))

unfoldable pub count_unread : Bool → ChatState → ChatState
count_unread own s =
    on_room
      (λ r. record r {
        unread_count =
            if counts_unread own s then (increment_unread r).unread_count else r.unread_count;
      })
      s

-- `responseType === 'chat-message'`; `user_id` is the value that the effect captured.
unfoldable pub on_chat_message : Option Text → Json → Run ChatState (Unit {0})
unfolding clear_echoed sound_for count_unread
on_chat_message user_id message = do
  first ← need (get message (codes "message"))
  let text = or_json first (get_opt message (codes "data"))
  let handle = get_opt message (codes "userHandle")
  let own = is_own handle user_id
  modify (
      append_message (record {
        user_handle = text_of handle;
        user_name = as_text (get_opt message (codes "userName"));
        user_photo = as_text (get_opt message (codes "userPhoto"));
        text = text_of text;
        room_id = as_text (get_opt message (codes "roomID"));
        is_system = false;
      }))
  modify (λ s. clear_echoed (own && is_pending text s.pending_message) s)
  modify (sound_for own)
  modify (count_unread own)

-- The participants are asked for again, and a `user-joined` lets sounds through.
abbrev pub arrive : ℤ → Bool → ChatState → ChatState
arrive now joined s =
    let s' = on_room (set_last_participant_join_time (some now)) s in
    if joined then record s' { suppress_sounds = false } else s'

-- `user-joined` and `user-left`: `joined` tells them apart.
unfoldable pub on_presence : ℤ → Bool → Json → Run ChatState (Unit {0})
on_presence now joined message = do
  modify (arrive now joined)
  let text = or_json (get_opt message (codes "data")) (str [])
  modify (λ s.
      if truthy text
      then append_message (system_line (text_of text) (get_opt message (codes "roomID"))) s
      else s)

unfoldable pub on_announcement : Json → Run ChatState (Unit {0})
on_announcement message = do
  room_id ← need (get message (codes "roomID"))
  modify (append_message (system_line (text_of (get_opt message (codes "data"))) room_id))

abbrev pub set_event : EventType → Json → ℤ → ChatState → ChatState
set_event type payload now =
    on_room
      (set_last_game_event (some (record { type = type; payload = payload; timestamp = now })))

module _ (parse_json : Text → Option Json) where
  -- JSON.parse(message?.data || '{}')
  abbrev pub parse_data : Json → Option Json
  parse_data message =
      parse_value parse_json (or_json (get_opt message (codes "data")) (str (codes "{}")))

  pub change_admin : ℤ → Json → ChatState → ChatState
  change_admin now admin s =
      if truthy admin
      then on_room
          (λ r.
            set_last_participant_join_time (some now)
              (set_is_admin (is_own admin s.user.user_id) (set_admin_id (text_of admin) r)))
          s
      else s

  -- Its own `try` swallows every error, like the outer one.
  unfoldable pub on_admin_change : ℤ → Json → Run ChatState (Unit {0})
  unfolding change_admin
  on_admin_change now message =
      try_catch
        (do
          v ← need (parse_data message)
          admin ← need (get v (codes "adminId"))
          modify (change_admin now admin)
          room_id ← need (get message (codes "roomID"))
          modify (
              append_message (
                system_line
                  (text_of (
                    or_json (get_opt v (codes "message"))
                      (str (codes "The room admin has changed."))))
                  room_id)))
        (return tt)

  -- The data if it does not parse is taken as it is.
  unfoldable pub on_round_start : ℤ → Json → Run ChatState (Unit {0})
  on_round_start now message = do
    v ← need (get message (codes "data"))
    modify (λ s. elim (parse_value parse_json v) [
      | none ↦ set_event round_start v now s
      | some w ↦ set_event round_start w now s
    ])

  unfoldable pub on_round_end : ℤ → Json → Run ChatState (Unit {0})
  on_round_end now message = do
    v ← need (get message (codes "data"))
    modify (set_event round_end v now)

  unfoldable pub on_round_join : ℤ → Json → Run ChatState (Unit {0})
  on_round_join now message = do
    v ← need (parse_data message)
    name ← need (get v (codes "userName"))
    let who = or_json name (get_opt v (codes "userID"))
    room_id ← need (get message (codes "roomID"))
    modify (append_message (system_line (json_text who ++ codes " joined the round") room_id))
    modify (set_event join_round v now)

  unfoldable pub on_next_problem : ℤ → Json → Run ChatState (Unit {0})
  on_next_problem now message =
      try_catch
        (do
          v ← need (get message (codes "data"))
          w ← need (parse_value parse_json v)
          modify (set_event next_problem w now))
        (return tt)

  unfoldable pub on_ok : ℤ → Option Text → FrameType → Json → Run ChatState (Unit {0})
  on_ok now user_id chat_frame message = on_chat_message user_id message
  on_ok now user_id user_joined message = on_presence now true message
  on_ok now user_id user_left message = on_presence now false message
  on_ok now user_id announcement message = on_announcement message
  on_ok now user_id admin_change message = on_admin_change now message
  on_ok now user_id round_started message = on_round_start now message
  on_ok now user_id round_ended message = on_round_end now message
  on_ok now user_id round_joined message = on_round_join now message
  on_ok now user_id next_problem_frame message = on_next_problem now message
  on_ok now user_id unknown message = return tt

  -- `status === 'error'`: a refused chat message is kept in the box and shown as a toast.
  unfoldable pub on_error : Json → ChatState → ChatState
  on_error response s =
      let reason =
        or_json (get_opt (get_opt response (codes "message")) (codes "data"))
          (str (codes "Unable to send message.")) in
      if is_str (get_opt response (codes "responseType")) (codes "chat-message")
      then record s { pending_message = none; toast = some (text_of reason) }
      else s

  abbrev pub by_status : ℤ → Option Text → Json → Bool → Bool → Run ChatState (Unit {0})
  by_status now user_id response true _ =
      on_ok now user_id (frame_type (get_opt response (codes "responseType")))
        (get_opt response (codes "message"))
  by_status now user_id response false true = modify (on_error response)
  by_status now user_id response false false = return tt

  on_response : ℤ → Option Text → Json → Run ChatState (Unit {0})
  on_response now user_id response = do
    status ← need (get response (codes "status"))
    by_status now user_id response (is_str status (codes "ok")) (is_str status (codes "error"))

  -- The whole handler: an error anywhere is caught, and what was written before it stays.
  unfoldable pub on_message : ℤ → Option Text → Text → ChatState → ChatState
  unfolding on_response
  on_message now user_id frame s = after (parse_json frame)
    where
      after : Option Json → ChatState
      after none = s
      after (some response) = (on_response now user_id response s).1
