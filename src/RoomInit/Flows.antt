-- ===== src/RoomInit/Flows.antt =====
-- Joining and creating a room: `joinRoom` and `createRoom` of
-- bsg-frontend/apps/extension/hooks/useRoomInit.ts. Each takes the replies to its requests in order;
-- what runs between the requests runs without interruption.
use bsg.Prelude.{
  ℕ, zero, suc, Bool, true, false, Option, none, some, if◌then◌else◌, Text, codes, nonempty, trim,
}
use bsg.Prelude.Int.{pos}
use bsg.Prelude.Json.{Json, undefined, null, str, get, get_opt, is_str}
use bsg.Prelude.Effects.{Outcome, Run, returns, throws, modify, need, return, throw, ◌>>=◌, ◌>>◌}
use bsg.Navigation.{Pushed}
use bsg.Requests.{Reply, rejected, replied, is_ok}
use bsg.Stores.Room.{init_room, set_has_round_ended, set_room_notice, set_round_duration}
use bsg.World.{World, on_room}
use bsg.RoomInit.{
  text_of, set_room_participants, extract_error_message, sanitize_round_creation_error,
  body_or_null, go_to_room_page, remember_room, round_status, last_round,
}

pub data ActionResult : Type 0 where
  success : ActionResult
  failure : Text → ActionResult

abbrev pub join_failed : ActionResult
join_failed = failure (codes "Failed to join room. Please try again.")

abbrev pub create_failed : ActionResult
create_failed = failure (codes "Failed to create room. Please try again.")

-- try { ... } catch { return the action's general failure }
abbrev pub settled : ActionResult → Outcome ActionResult × World → ActionResult × World
settled general (returns r, w) = (r, w)
settled general (throws, w) = (general, w)

-- userId === adminId, where the admin id may be missing
abbrev pub is_admin_id : Option Text → Json → Bool
is_admin_id (some id) v = is_str v id
is_admin_id none null = true
is_admin_id none v = false

-- initRoom(room.id, room.shortCode, room.adminId, userId === room.adminId)
abbrev pub enter_room : Json → World → World
enter_room room w =
    on_room
      (init_room (text_of (get_opt room (codes "id"))) (text_of (get_opt room (codes "shortCode")))
        (text_of (get_opt room (codes "adminId")))
        (is_admin_id w.user.user_id (get_opt room (codes "adminId"))))
      w

-- What joinRoom does with a room that it was let into.
unfoldable pub joined_room : Json → Reply → Pushed → Run World ActionResult
joined_room room participants pushed = do
  modify (enter_room room)
  modify (
      on_room (
        set_has_round_ended
          (is_str (round_status (last_round (get_opt room (codes "rounds")))) (codes "ended"))))
  modify (set_room_participants participants)
  modify (on_room (set_room_notice none))
  _ ← go_to_room_page pushed
  modify (remember_room (text_of (get_opt room (codes "id"))))
  return success

-- The first failing reply decides; `room.id` throws where the body holds no room.
unfoldable pub join_reply : Reply → Reply → Pushed → Run World ActionResult
join_reply rejected participants pushed = throw
join_reply (replied status body) participants pushed =
    if is_ok status
    then (do
      room ← need (get (body_or_null body) (codes "data"))
      _ ← need (get room (codes "id"))
      joined_room room participants pushed)
    else return (failure (extract_error_message (body_or_null body) (codes "Failed to join room.")))

unfoldable pub join_room : Reply → Reply → Pushed → World → ActionResult × World
join_room reply participants pushed w = settled join_failed (join_reply reply participants pushed w)

-- `options.x || fallback`
abbrev pub number_or : Option ℕ → ℕ → ℕ
number_or none d = d
number_or (some zero) d = d
number_or (some (suc n)) d = suc n

-- `typeof warning === 'string' && warning.trim() ? warning : null`
abbrev notice_of : Json → Option Text
notice_of (str s) = if nonempty (trim s) then some s else none
notice_of v = none

-- The bodies of the three replies of createRoom, when all are ok. A request that is refused ends
-- with its own message; one that fails, with the general one.
pub data Created : Type 0 where
  refused : Text → Created
  broken : Created
  created : Json → Json → Created

abbrev pub joined_reply : Json → Json → Reply → Created
joined_reply room round rejected = broken
joined_reply room round (replied status body) =
    if is_ok status
    then created room round
    else refused
        (extract_error_message (body_or_null body) (codes "Room was created, but failed to join."))

abbrev pub round_reply : Json → Reply → Reply → Created
round_reply room rejected join = broken
round_reply room (replied status body) join =
    if is_ok status
    then joined_reply room (body_or_null body) join
    else refused (
        sanitize_round_creation_error
          (extract_error_message (body_or_null body) (codes "Failed to create round.")))

-- `data.data.id` throws where the body holds no room.
abbrev pub with_room : Option Json → Reply → Reply → Created
with_room none round join = broken
with_room (some undefined) round join = broken
with_room (some null) round join = broken
with_room (some room) round join = round_reply room round join

unfoldable pub create_replies : Reply → Reply → Reply → Created
create_replies rejected round join = broken
create_replies (replied status body) round join =
    if is_ok status
    then with_room (get (body_or_null body) (codes "data")) round join
    else refused (extract_error_message (body_or_null body) (codes "Failed to create room."))

-- What createRoom does once the room and its round are there and it is joined.
unfoldable pub created_room : Option ℕ → Json → Json → Reply → Pushed → Run World ActionResult
created_room duration room round participants pushed = do
  modify (enter_room room)
  modify (set_room_participants participants)
  modify (on_room (set_round_duration (some (pos (number_or duration 30)))))
  modify (on_room (set_room_notice (notice_of (get_opt round (codes "warningMessage")))))
  modify (remember_room (text_of (get_opt room (codes "id"))))
  _ ← go_to_room_page pushed
  return success

abbrev pub create_by : Created → Option ℕ → Reply → Pushed → World → ActionResult × World
create_by (refused message) duration participants pushed w = (failure message, w)
create_by broken duration participants pushed w = (create_failed, w)
create_by (created room round) duration participants pushed w =
    settled create_failed (created_room duration room round participants pushed w)

unfoldable pub create_room :
    Option ℕ → Reply → Reply → Reply → Reply → Pushed → World → ActionResult × World
create_room duration room round join participants pushed w =
    create_by (create_replies room round join) duration participants pushed w
