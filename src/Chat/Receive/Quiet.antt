-- ===== src/Chat/Receive/Quiet.antt =====
-- What a frame may change, and the steps of `ws.onmessage` of
-- bsg-frontend/apps/extension/hooks/useChatSocket.ts that change none of it.
use bsg.Prelude.{◌+◌, Bool, true, false, some, [], ◌∷◌, ◌++◌, ◌≡◌, ◌⊎◌, inl, inr, refl, ap}
use bsg.Prelude.Int.{ℤ}
use bsg.Stores.Room.{RoomState, set_last_participant_join_time}
use bsg.Chat.{ChatMessage, ChatState, is_chat_visible}
use bsg.Chat.Receive.{append_message, arrive}

-- A frame appends at most one line to the chat, counts at most one unread message, and this only
-- while the chat cannot be seen and sounds are on; it empties the box or leaves it; it never touches
-- the connection, the joined room, the user or the room's identity.
pub record Received (s t : ChatState) : Type 0 where
  pub lines : (t.messages ≡ s.messages) ⊎ ((m : ChatMessage) × (t.messages ≡ s.messages ++ m ∷ []))
  pub unread :
      (t.room.unread_count ≡ s.room.unread_count)
      ⊎ ((t.room.unread_count ≡ s.room.unread_count + 1)
          × ((is_chat_visible s ≡ false) × (s.suppress_sounds ≡ false)))
  pub box : (t.input_text ≡ s.input_text) ⊎ (t.input_text ≡ [])
  pub connection :
      (t.socket ≡ s.socket) × (t.joined_room ≡ s.joined_room) × (t.pending_room ≡ s.pending_room)
  pub traffic : t.traffic ≡ s.traffic
  pub user : t.user ≡ s.user
  pub room : t.room.room_id ≡ s.room.room_id

-- What does none of this.
pub record Quiet (s t : ChatState) : Type 0 where
  pub lines : t.messages ≡ s.messages
  pub unread : t.room.unread_count ≡ s.room.unread_count
  pub box : t.input_text ≡ s.input_text
  pub connection :
      (t.socket ≡ s.socket) × (t.joined_room ≡ s.joined_room) × (t.pending_room ≡ s.pending_room)
  pub traffic : t.traffic ≡ s.traffic
  pub user : t.user ≡ s.user
  pub room : t.room.room_id ≡ s.room.room_id

module _ {s t : ChatState} (q : Quiet s t) where
  pub Quiet-Received : Received s t
  Quiet-Received = record {
    lines = inl q.lines;
    unread = inl q.unread;
    box = inl q.box;
    connection = q.connection;
    traffic = q.traffic;
    user = q.user;
    room = q.room;
  }

  pub Quiet-append : (m : ChatMessage) → Received s (append_message m t)
  Quiet-append m = record {
    lines = inr (m, ap (λ ms. ms ++ m ∷ []) q.lines);
    unread = inl q.unread;
    box = inl q.box;
    connection = q.connection;
    traffic = q.traffic;
    user = q.user;
    room = q.room;
  }

module _ (s : ChatState) where
  -- A change of the room store that leaves its count and its id, perhaps with the sounds.
  pub Quiet-update :
      (b : Bool) (r : RoomState)
      → r.unread_count ≡ s.room.unread_count
      → r.room_id ≡ s.room.room_id
      → Quiet s (record s { suppress_sounds = b; room = r })
  Quiet-update b r unread id = record {
    lines = refl;
    unread = unread;
    box = refl;
    connection = (refl, refl, refl);
    traffic = refl;
    user = refl;
    room = id;
  }

  pub Quiet-refl : Quiet s s
  Quiet-refl = Quiet-update s.suppress_sounds s.room refl refl

  pub Received-refl : Received s s
  Received-refl = Quiet-Received Quiet-refl

  pub Received-append : (m : ChatMessage) → Received s (append_message m s)
  Received-append m = Quiet-append Quiet-refl m

  pub Quiet-presence : (now : ℤ) (joined : Bool) → Quiet s (arrive now joined s)
  Quiet-presence now true =
      Quiet-update false (set_last_participant_join_time (some now) s.room) refl refl
  Quiet-presence now false =
      Quiet-update s.suppress_sounds (set_last_participant_join_time (some now) s.room) refl refl
