-- ===== src/RoomInit/Active.antt =====
-- `checkActiveRoom` of bsg-frontend/apps/extension/hooks/useRoomInit.ts: a panel that is opened again
-- while its user is in a room. `parse_date` is what `new Date(v).getTime()` gives. The callback of
-- `chrome.storage.local.get` is taken to run where it is registered: nothing between writes the key.
use bsg.Prelude.{
  ℕ, Bool, true, false, Option, none, some, List, [], ◌∷◌, if◌then◌else◌, codes, or_else,
}
use bsg.Prelude.Int.{ℤ, pos, Number, finite, num_add, num_mul, num_lt}
use bsg.Prelude.Json.{Json, num, truthy, get, get_opt, is_str, or_json, elements, to_number}
use bsg.Prelude.Effects.{Outcome, Run, returns, throws, modify, need, return, throw, ◌>>=◌, ◌>>◌}
use bsg.Navigation.{Pushed}
use bsg.Requests.{Reply, rejected, replied, is_ok, fetch_with_retry}
use bsg.Stores.Room.{
  RoomState, set_has_round_ended, set_room_notice, set_round_duration, set_is_round_started,
  set_round_end_time, set_problems,
}
use bsg.World.{World, on_room, on_storage}
use bsg.RoomInit.{text_of, set_room_participants, go_to_room_page, round_status, last_round}
use bsg.RoomInit.Flows.{enter_room}

-- chrome.storage.local.get: the stored problems are read back.
abbrev pub restore_problems : World → World
restore_problems w =
    if w.available then on_room (set_problems (or_else w.storage.problems [])) w else w

-- The numbers of `setRoundDuration`, where the value is one.
abbrev pub note_duration : Json → RoomState → RoomState
note_duration (num n) r = set_round_duration (some n) r
note_duration v r = r

abbrev pub round_duration_of : Json → Json
round_duration_of v = or_json (get_opt v (codes "duration")) (get_opt v (codes "Duration"))

-- startTime + duration * 60 * 1000
unfoldable pub running_end_time : (Json → Number) → Json → Number
running_end_time parse_date v =
    num_add
      (parse_date
        (or_json (get_opt v (codes "LastUpdatedTime")) (get_opt v (codes "lastUpdatedTime"))))
      (num_mul (num_mul (to_number (round_duration_of v)) (finite (pos 60))) (finite (pos 1000)))

abbrev set_timer : Number → World → World
set_timer t w =
    on_storage (λ d. record d { round_end_time = some t }) (on_room (set_round_end_time (some t)) w)

-- The last round of the room: a running one whose end is ahead sets the timer.
unfoldable pub resume_round : (Json → Number) → ℤ → Json → World → World
unfolding running_end_time
resume_round parse_date now v w =
    let noted =
      on_room (note_duration (round_duration_of v))
        (on_room (set_has_round_ended (is_str (round_status v) (codes "ended"))) w) in
    let end_time = running_end_time parse_date v in
    if is_str (round_status v) (codes "started")
    then (let started = on_room (set_is_round_started true) noted in
        if num_lt (finite now) end_time then set_timer end_time started else started)
    else on_room (set_round_end_time none) (on_room (set_is_round_started false) noted)

-- `lastRound.Status` throws where the last round is null.
abbrev check_round : (Json → Number) → ℤ → List Json → Json → Run World Bool
check_round parse_date now [] v = return true
check_round parse_date now (r ∷ rs) v = do
  _ ← need (get v (codes "Status"))
  modify (resume_round parse_date now v)
  return true

-- What checkActiveRoom does with the details of the room.
unfoldable pub resumed_room : (Json → Number) → ℤ → Json → Reply → Pushed → Run World Bool
unfolding resume_round
resumed_room parse_date now room participants pushed = do
  modify (enter_room room)
  modify (set_room_participants participants)
  modify (on_room (set_room_notice none))
  modify
      (on_storage (λ d. record d { active_room_id = some (text_of (get_opt room (codes "id"))) }))
  modify restore_problems
  _ ← go_to_room_page pushed
  check_round parse_date now (elements (get_opt room (codes "rounds")))
      (last_round (get_opt room (codes "rounds")))

abbrev room_reply : (Json → Number) → ℤ → Reply → Reply → Pushed → Run World Bool
room_reply parse_date now rejected participants pushed = throw
room_reply parse_date now (replied status body) participants pushed =
    if is_ok status
    then (do
      payload ← need body
      room ← need (get payload (codes "data"))
      _ ← need (get room (codes "id"))
      resumed_room parse_date now room participants pushed)
    else return false

-- `data.id || data.roomID` decides whether there is an active room; `data.id` throws on null.
abbrev active_reply : (Json → Number) → ℤ → Reply → Reply → Reply → Pushed → Run World Bool
active_reply parse_date now rejected room participants pushed = throw
active_reply parse_date now (replied status body) room participants pushed =
    if is_ok status
    then (do
      payload ← need body
      id ← need (get payload (codes "id"))
      if truthy (or_json id (get_opt payload (codes "roomID")))
          then room_reply parse_date now room participants pushed
          else return false)
    else return false

-- try { ... } catch { log }, with `false` at the end
abbrev found : Outcome Bool × World → Bool × World
found (returns b, w) = (b, w)
found (throws, w) = (false, w)

-- `none` would mean that the repeated request does not end.
unfoldable pub check_active_room :
    (Json → Number) → ℤ → (ℕ → Reply) → Reply → Reply → Pushed → World → Option (Bool × World)
check_active_room parse_date now attempts room participants pushed w =
    elim (fetch_with_retry attempts) [
      | none ↦ none
      | some s ↦ some (found (active_reply parse_date now s.reply room participants pushed w))
    ]
