-- ===== src/RoomInit/Laws.antt =====
-- What the ways into a room leave behind: bsg-frontend/apps/extension/hooks/useRoomInit.ts.
use bsg.Prelude.{
  ℕ, Bool, true, false, Option, none, some, [], ◌∷◌, ◌≡◌, refl, codes, Text, Bool-cases, ◌⊎◌, inl,
  inr, ◌&&◌, is_some, subst,
}
use bsg.Prelude.Int.{ℤ, Number, finite, num_lt}
use bsg.Prelude.Json.{Json, undefined, null, bool, num, str, arr, obj, get, get_opt, is_str}
use bsg.Prelude.Effects.{Outcome, returns, throws}
use bsg.Navigation.{Pushed, push_route}
use bsg.Requests
use bsg.Requests.{Reply, replied, is_ok}
use bsg.Stores.Room.{RoomState, init_room}
use bsg.World.{World}
use bsg.RoomInit.{
  go_to_room_page, remember_room, body_or_null, set_room_participants, round_status, text_of,
}
use bsg.RoomInit.Flows.{
  ActionResult, success, failure, create_room, create_replies, created_room, settled, create_failed,
  Created, refused, broken, created, round_reply, joined_reply, with_room,
}
use bsg.RoomInit.Active.{resume_round, running_end_time, note_duration, round_duration_of}

-- What a reply's body holds as its data, and the id in it, undefined where there is none.
abbrev pub answered : Reply → Option Json
answered Requests.rejected = none
answered (replied status body) = get (body_or_null body) (codes "data")

abbrev pub accepts : Reply → Bool
accepts Requests.rejected = false
accepts (replied status body) = is_ok status

abbrev pub id_in : Option Json → Option Json
id_in none = none
id_in (some data_of) = get data_of (codes "id")

abbrev pub text_in : Option Json → Text
text_in none = []
text_in (some v) = text_of v

abbrev pub id_text : Reply → Text
id_text reply = text_in (id_in (answered reply))

-- A panel that shows the room with an id, which it has entered, and that the background worker can
-- find.
pub record Entered (id : Text) (w w' : World) : Type 0 where
  pub in_room : w'.room.is_in_room ≡ true
  pub room : w'.room.room_id ≡ some id
  pub not_started : w'.room.is_round_started ≡ false
  pub no_timer : w'.room.round_end_time ≡ none
  pub none_unread : w'.room.unread_count ≡ 0
  pub stored_room : w'.storage.active_room_id ≡ some id
  pub no_next : w'.storage.next_problem ≡ none
  pub no_badge : w'.badge ≡ []
  pub shown : w'.routes ≡ codes "/room-page" ∷ w.routes
  pub same_user : w'.user ≡ w.user

settled_success :
    (id : Text) (w : World) (general : ActionResult) (r : Outcome ActionResult × World)
    → (r.0 ≡ returns success) × Entered id w r.1
    → ((settled general r).0 ≡ success) × Entered id w (settled general r).1
settled_success id w general (returns result, w') (e, h) = (cc, h)
settled_success id w general (throws, w') (e, h) = cc

created_room-Entered :
    (duration : Option ℕ) (room round : Json) (participants : Reply) (pushed : Pushed) (b : Bool)
    (w : World)
    → w.available ≡ true
    → push_route pushed ≡ returns b
    → let (outcome, w') = created_room duration room round participants pushed w in
      (outcome ≡ returns success) × Entered (text_of (get_opt room (codes "id"))) w w'
unfolding created_room go_to_room_page remember_room set_room_participants init_room
created_room-Entered duration room round participants pushed b w api e = simp e (
  refl,
  record {
    in_room = refl;
    room = refl;
    not_started = refl;
    no_timer = refl;
    none_unread = refl;
    stored_room = simp api;
    no_next = simp api;
    no_badge = simp api;
    shown = refl;
    same_user = refl;
  },
)

-- The room is made, with an answer that tells which, and its round and the joining are accepted.
abbrev pub all_accepted : Reply → Reply → Reply → Bool
all_accepted first second third =
    accepts first && (is_some (id_in (answered first)) && (accepts second && accepts third))

-- What is left of the three replies without all of them.
IsOff : Created → Type 0
IsOff c = ((message : Text) × (c ≡ refused message)) ⊎ (c ≡ broken)

Judged : Bool → Text → Created → Type 0
Judged good id c =
    ((good ≡ true)
      × (room : Json) × (round : Json) × (c ≡ created room round)
      × (text_of (get_opt room (codes "id")) ≡ id))
    ⊎ ((good ≡ false) × IsOff c)

joined_reply-Judged :
    (room round : Json) (third : Reply)
    → Judged (accepts third) (text_of (get_opt room (codes "id"))) (joined_reply room round third)
unfolding Judged IsOff
joined_reply-Judged room round Requests.rejected = inr (refl, inr refl)
joined_reply-Judged room round (replied status body) = elim (Bool-cases (is_ok status)) [
  | inr bad ↦ rw bad (inr (refl, inl (_, refl)))
  | inl ok ↦ rw ok (inl (refl, room, round, refl, refl))
]

round_reply-Judged :
    (room : Json) (second third : Reply)
    → Judged
        (accepts second && accepts third)
        (text_of (get_opt room (codes "id")))
        (round_reply room second third)
unfolding Judged IsOff
round_reply-Judged room Requests.rejected third = inr (refl, inr refl)
round_reply-Judged room (replied status body) third = elim (Bool-cases (is_ok status)) [
  | inr bad ↦ rw bad (inr (refl, inl (_, refl)))
  | inl ok ↦ rw ok (joined_reply-Judged room (body_or_null body) third)
]

-- The room of the first reply, and the rest.
with_room-Judged :
    (room : Option Json) (second third : Reply)
    → Judged
        (is_some (id_in room) && (accepts second && accepts third))
        (text_in (id_in room))
        (with_room room second third)
unfolding Judged IsOff
with_room-Judged none second third = inr (refl, inr refl)
with_room-Judged (some undefined) second third = inr (refl, inr refl)
with_room-Judged (some null) second third = inr (refl, inr refl)
with_room-Judged (some (bool b)) second third = round_reply-Judged (bool b) second third
with_room-Judged (some (num n)) second third = round_reply-Judged (num n) second third
with_room-Judged (some (str t)) second third = round_reply-Judged (str t) second third
with_room-Judged (some (arr xs)) second third = round_reply-Judged (arr xs) second third
with_room-Judged (some (obj fs)) second third = round_reply-Judged (obj fs) second third

create_replies-Judged :
    (first second third : Reply)
    → Judged (all_accepted first second third) (id_text first) (create_replies first second third)
unfolding Judged IsOff create_replies
create_replies-Judged Requests.rejected second third = inr (refl, inr refl)
create_replies-Judged (replied status body) second third = elim (Bool-cases (is_ok status)) [
  | inr bad ↦ rw bad (inr (refl, inl (_, refl)))
  | inl ok ↦ rw ok (with_room-Judged (get (body_or_null body) (codes "data")) second third)
]

-- If the room is made, with an answer that has it, and its round and the joining of it are accepted,
-- then the panel is in the room with the id of the answer; otherwise creating a room changes nothing
-- and fails with a message. This holds however the requests fail, where the change of the page does
-- not fail and the extension's API is there.
pub create_room_branches :
    (duration : Option ℕ) (first second third participants : Reply) (pushed : Pushed) (b : Bool)
    (w : World)
    → push_route pushed ≡ returns b
    → w.available ≡ true
    → let (result, w') = create_room duration first second third participants pushed w in
      ((all_accepted first second third ≡ true) × (result ≡ success) × Entered (id_text first) w w')
      ⊎ ((all_accepted first second third ≡ false)
          × ((message : Text) × (result ≡ failure message))
          × (w' ≡ w))
unfolding create_room Judged IsOff
create_room_branches duration first second third participants pushed b w moves api =
    elim (create_replies-Judged first second third) [
      | inl (good, room, round, e, named) ↦
          let (done, entered) =
            settled_success (text_of (get_opt room (codes "id"))) w create_failed
              (created_room duration room round participants pushed w)
              (created_room-Entered duration room round participants pushed b w api moves) in
          rw e (
            inl (
              good,
              done,
              subst
                  (λ t.
                    Entered t w
                      (settled create_failed
                        (created_room duration room round participants pushed w)).1)
                  named entered,
            ))
      | inr (bad, inl (message, e)) ↦ rw e (inr (bad, (message, refl), refl))
      | inr (bad, inr e) ↦ rw e (inr (bad, (_, refl), refl))
    ]

note_duration-round_end_time :
    (v : Json) (r : RoomState) → (note_duration v r).round_end_time ≡ r.round_end_time
note_duration-round_end_time (num n) r = refl
note_duration-round_end_time _ r = refl

-- A reopened panel takes up the timer of a round that is running and whose end is ahead, in the
-- store and in the storage alike; a running round whose end is past leaves the timer; where the round
-- is not running there is none. This holds where the extension's API is there.
resume_round_branches :
    (parse_date : Json → Number) (now : ℤ) (v : Json) (w : World)
    → w.available ≡ true
    → let w' = resume_round parse_date now v w in
      let end_time = running_end_time parse_date v in
      ((w'.room.is_round_started ≡ true)
        × (num_lt (finite now) end_time ≡ true)
        × (w'.room.round_end_time ≡ some end_time)
        × (w'.storage.round_end_time ≡ some end_time))
      ⊎ (((w'.room.is_round_started ≡ true)
            × (num_lt (finite now) end_time ≡ false)
            × (w'.room.round_end_time ≡ w.room.round_end_time)
            × (w'.storage ≡ w.storage))
          ⊎ ((is_str (round_status v) (codes "started") ≡ false)
              × (w'.room.is_round_started ≡ false)
              × (w'.room.round_end_time ≡ none)))
unfolding resume_round
resume_round_branches parse_date now v w api =
    elim (Bool-cases (is_str (round_status v) (codes "started"))) [
      | inr other ↦ inr (inr (other, simp other, simp other))
      | inl run ↦ elim (Bool-cases (num_lt (finite now) (running_end_time parse_date v))) [
        | inl ahead ↦ inl (simp (run, ahead), ahead, simp (run, ahead), simp (run, ahead, api))
        | inr past ↦ inr (
            inl (
              simp (run, past),
              past,
              simp (run, past) (note_duration-round_end_time (round_duration_of v) _),
              simp (run, past),
            ))
      ]
    ]
