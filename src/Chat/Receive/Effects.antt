-- ===== src/Chat/Receive/Effects.antt =====
-- What a frame may change, whatever it holds: `ws.onmessage` of
-- bsg-frontend/apps/extension/hooks/useChatSocket.ts.
use bsg.Prelude.{
  Bool, true, false, Option, [], ◌≡◌, inl, inr, refl, arith, Text, codes, Bool-cases, Option-cases,
}
use bsg.Prelude.Int.{ℤ}
use bsg.Prelude.Json.{Json, get, get_opt, truthy, is_str, or_json, str}
use bsg.Stores.Room.{EventType, round_start, round_end, next_problem, join_round}
use bsg.Chat.{ChatMessage, ChatState, is_chat_visible}
use bsg.Chat.Receive.{
  append_message, clear_echoed, sound_for, count_unread, counts_unread, on_chat_message,
  on_presence, on_announcement, on_admin_change, on_round_start, on_round_end, on_round_join,
  on_next_problem, on_ok, on_error, on_response, on_message, parse_data, parse_value, change_admin,
  is_own, set_event, by_status, FrameType, chat_frame, user_joined, user_left, announcement,
  admin_change, round_started, round_ended, round_joined, next_problem_frame, unknown,
}
use bsg.Chat.Receive.Quiet.{
  Received, Quiet, Quiet-Received, Quiet-append, Quiet-update, Quiet-refl, Received-refl,
  Received-append, Quiet-presence,
}

module _ (s : ChatState) where
  counted_when :
      (own : Bool)
      → counts_unread own s ≡ true
      → (is_chat_visible s ≡ false) × (s.suppress_sounds ≡ false)
  counted_when own h = ground arith

  chat-Received :
      (m : ChatMessage) (own echoed : Bool)
      → Received s (count_unread own (sound_for own (clear_echoed echoed (append_message m s))))
  unfolding count_unread sound_for clear_echoed
  chat-Received m own echoed = record {
    lines = inr (m, refl);
    unread = elim (Bool-cases (counts_unread own s)) [
      | inl h ↦ inr (rw h, counted_when own h)
      | inr h ↦ inl (rw h)
    ];
    box = elim (Bool-cases echoed) [ inl h ↦ inr (rw h) | inr h ↦ inl (rw h) ];
    connection = (refl, refl, refl);
    traffic = refl;
    user = refl;
    room = refl;
  }

  on_chat_message-Received :
      (user_id : Option Text) (message : Json) → Received s (on_chat_message user_id message s).1
  unfolding on_chat_message
  on_chat_message-Received user_id message = elim (Option-cases (get message (codes "message"))) [
    | inl e ↦ rw (e, on_chat_message) (Received-refl s)
    | inr (first, e) ↦
        rw e (chat-Received _ (is_own (get_opt message (codes "userHandle")) user_id) _)
  ]

  on_presence-Received :
      (now : ℤ) (joined : Bool) (message : Json) → Received s (on_presence now joined message s).1
  unfolding on_presence
  on_presence-Received now joined message =
      elim (Bool-cases (truthy (or_json (get_opt message (codes "data")) (str [])))) [
        | inl h ↦ rw h (Quiet-append (Quiet-presence s now joined) _)
        | inr h ↦ rw h (Quiet-Received (Quiet-presence s now joined))
      ]

  on_announcement-Received : (message : Json) → Received s (on_announcement message s).1
  unfolding on_announcement
  on_announcement-Received message = elim (Option-cases (get message (codes "roomID"))) [
    | inl e ↦ rw e (Received-refl s)
    | inr (room_id, e) ↦ rw e (Received-append s _)
  ]

  Quiet-event : (type : EventType) (v : Json) (now : ℤ) → Quiet s (set_event type v now s)
  Quiet-event type v now = Quiet-update s s.suppress_sounds (set_event type v now s).room refl refl

  module _ (parse_json : Text → Option Json) (now : ℤ) (message : Json) where
    on_round_start-Received : Received s (on_round_start parse_json now message s).1
    unfolding on_round_start
    on_round_start-Received = elim (Option-cases (get message (codes "data"))) [
      | inl e ↦ rw e (Received-refl s)
      | inr (v, e) ↦ elim (Option-cases (parse_value parse_json v)) [
        | inl f ↦ rw (e, f) (Quiet-Received (Quiet-event round_start v now))
        | inr (w, f) ↦ rw (e, f) (Quiet-Received (Quiet-event round_start w now))
      ]
    ]

    on_round_end-Received : Received s (on_round_end parse_json now message s).1
    unfolding on_round_end
    on_round_end-Received = elim (Option-cases (get message (codes "data"))) [
      | inl e ↦ rw e (Received-refl s)
      | inr (v, e) ↦ rw e (Quiet-Received (Quiet-event round_end v now))
    ]

    on_next_problem-Received : Received s (on_next_problem parse_json now message s).1
    unfolding on_next_problem
    on_next_problem-Received = elim (Option-cases (get message (codes "data"))) [
      | inl e ↦ rw e (Received-refl s)
      | inr (v, e) ↦ elim (Option-cases (parse_value parse_json v)) [
        | inl f ↦ rw (e, f) (Received-refl s)
        | inr (w, f) ↦ rw (e, f) (Quiet-Received (Quiet-event next_problem w now))
      ]
    ]

    on_round_join-Received : Received s (on_round_join parse_json now message s).1
    unfolding on_round_join
    on_round_join-Received = elim (Option-cases (parse_data parse_json message)) [
      | inl e ↦ rw e (Received-refl s)
      | inr (v, e) ↦ elim (Option-cases (get v (codes "userName"))) [
        | inl f ↦ rw (e, f) (Received-refl s)
        | inr (name, f) ↦ elim (Option-cases (get message (codes "roomID"))) [
          | inl g ↦ rw (e, f, g) (Received-refl s)
          | inr (room_id, g) ↦ rw (e, f, g) (Quiet-append (Quiet-event join_round v now) _)
        ]
      ]
    ]

    Quiet-admin : (admin : Json) → Quiet s (change_admin parse_json now admin s)
    unfolding change_admin
    Quiet-admin admin = elim (Bool-cases (truthy admin)) [
      | inl h ↦ rw h (Quiet-update s s.suppress_sounds _ refl refl)
      | inr h ↦ rw h (Quiet-refl s)
    ]

    on_admin_change-Received : Received s (on_admin_change parse_json now message s).1
    unfolding on_admin_change
    on_admin_change-Received = elim (Option-cases (parse_data parse_json message)) [
      | inl e ↦ rw e (Received-refl s)
      | inr (v, e) ↦ elim (Option-cases (get v (codes "adminId"))) [
        | inl f ↦ rw (e, f) (Received-refl s)
        | inr (admin, f) ↦ elim (Option-cases (get message (codes "roomID"))) [
          | inl g ↦ rw (e, f, g) (Quiet-Received (Quiet-admin admin))
          | inr (room_id, g) ↦ rw (e, f, g) (Quiet-append (Quiet-admin admin) _)
        ]
      ]
    ]

  module _ (parse_json : Text → Option Json) (now : ℤ) (user_id : Option Text) where
    on_ok-Received :
        (type : FrameType) (message : Json)
        → Received s (on_ok parse_json now user_id type message s).1
    unfolding on_ok
    on_ok-Received chat_frame message = on_chat_message-Received user_id message
    on_ok-Received user_joined message = on_presence-Received now true message
    on_ok-Received user_left message = on_presence-Received now false message
    on_ok-Received announcement message = on_announcement-Received message
    on_ok-Received admin_change message = on_admin_change-Received parse_json now message
    on_ok-Received round_started message = on_round_start-Received parse_json now message
    on_ok-Received round_ended message = on_round_end-Received parse_json now message
    on_ok-Received round_joined message = on_round_join-Received parse_json now message
    on_ok-Received next_problem_frame message = on_next_problem-Received parse_json now message
    on_ok-Received unknown message = (Received-refl s)

    on_error-Received : (response : Json) → Received s (on_error parse_json response s)
    unfolding on_error
    on_error-Received response =
        elim (Bool-cases
          (is_str (get_opt response (codes "responseType")) (codes "chat-message"))) [
            | inl h ↦ rw h (record {
              lines = inl refl;
              unread = inl refl;
              box = inl refl;
              connection = (refl, refl, refl);
              traffic = refl;
              user = refl;
              room = refl;
            })
            | inr h ↦ rw h (Received-refl s)
          ]

    by_status-Received :
        (response : Json) (ok error : Bool)
        → Received s (by_status parse_json now user_id response ok error s).1
    by_status-Received response true _ = on_ok-Received _ _
    by_status-Received response false true = on_error-Received response
    by_status-Received response false false = (Received-refl s)

    on_response-Received :
        (response : Json) → Received s (on_response parse_json now user_id response s).1
    unfolding on_response
    on_response-Received response = elim (Option-cases (get response (codes "status"))) [
      | inl e ↦ rw e (Received-refl s)
      | inr (status, e) ↦ rw e (by_status-Received response _ _)
    ]

-- Whatever text arrives, and however it parses, a frame appends at most one line to the chat and
-- counts at most one unread message, the latter only while the chat is out of sight and sounds are
-- on; it leaves the box or empties it, and never touches the connection, the joined room, what was
-- sent, the user or the room's id.
pub on_message-Received :
    (parse_json : Text → Option Json) (now : ℤ) (user_id : Option Text) (frame : Text)
    (s : ChatState)
    → Received s (on_message parse_json now user_id frame s)
unfolding on_message
on_message-Received parse_json now user_id frame s = elim (Option-cases (parse_json frame)) [
  | inl e ↦ rw e (Received-refl s)
  | inr (response, e) ↦ rw e (on_response-Received s parse_json now user_id response)
]
