-- ===== src/Events/Handlers.antt =====
-- The remaining events, the dispatch on their type, the resume on mount and the round buttons:
-- bsg-frontend/apps/extension/hooks/useRoomEvents.ts. `parse_json` is `JSON.parse`, `none` where it
-- throws.
use bsg.Prelude.{
  ℕ, Bool, true, false, ◌&&◌, not, Option, none, some, List, [], ◌∷◌, if◌then◌else◌, Text, codes,
  nonempty, or_else, is_some, ◌||◌,
}
use bsg.Prelude.Int.{ℤ, Number, finite, num_lt, num_truthy}
use bsg.Prelude.Json.{Json, str, get, is_str, as_text}
use bsg.Prelude.Effects.{Outcome, Run, returns, modify, need, gets, ◌>>=◌, ◌>>◌}
use bsg.Navigation.{Tab, resolve_resume_slug}
use bsg.Stores.Room.{
  EventType, round_start, next_problem, round_end, join_round, GameEvent, chat, set_round_end_time,
  set_is_round_started, set_has_round_ended, set_active_tab, reset_room,
}
use bsg.Requests.{Reply, ok_body}
use bsg.World.{
  World, problem_progress_reset, on_room, on_storage, set_badge, send_message, push, truthy_id,
}
use bsg.Events.{
  EventsState, on_world, set_last_game, save_last_game, navigate, on_round_start, on_join_round,
  ended_key, left_key,
}

-- The state after round-end, in the order of the source.
unfoldable pub on_round_end : ℤ → Text → EventsState → EventsState
on_round_end now room_id s =
    let end_store = λ (w : World).
      on_room
        (λ r. set_has_round_ended true (set_is_round_started false (set_round_end_time none r)))
        w in
    let forget = λ (w : World). set_badge [] (
      on_storage (λ d. record d { next_problem = none; round_end_time = none; problems = none })
        w) in
    let report = λ (w : World). send_message (problem_progress_reset (ended_key room_id now)) w in
    record s {
      last_game = some round_end;
      next_problem = none;
      world =
          save_last_game round_end
            (on_room (set_active_tab chat) (report (forget (end_store s.world))));
    }

module _ (update : ℕ → Text → Option Tab) (parse_json : Text → Option Json) where
  -- The event's data, parsed if it is a string that parses.
  abbrev pub event_data : Json → Json
  event_data (str t) = or_else (parse_json t) (str t)
  event_data v = v

  -- `userId && userHandle == userId`, where both are strings
  abbrev pub addressed_to : Option Text → Json → Bool
  addressed_to none handle = false
  addressed_to (some id) handle = nonempty id && is_str handle id

  -- Taking `nextProblem` and `userHandle` out of null or undefined throws.
  unfoldable pub on_next_problem : Json → Run EventsState (Unit {0})
  on_next_problem payload = do
    modify (set_last_game next_problem)
    let v = event_data payload
    target ← need (get v (codes "nextProblem"))
    handle ← need (get v (codes "userHandle"))
    user_id ← gets (λ s. s.world.user.user_id)
    modify (λ s.
        if addressed_to user_id handle
        then on_world (navigate update (λ _. as_text target)) s
        else s)
    modify (on_world (save_last_game next_problem))

  abbrev pub dispatch : ℤ → Text → GameEvent → Run EventsState (Unit {0})
  dispatch now room_id e = by_type e.type
    where
      by_type : EventType → Run EventsState (Unit {0})
      by_type round_start = modify (on_round_start update now room_id e.payload)
      by_type join_round = modify (on_join_round update now room_id e.payload)
      by_type next_problem = on_next_problem e.payload
      by_type round_end = modify (on_round_end now room_id)

  -- The effect on `lastGameEvent`: without an event or a room it does nothing.
  unfoldable pub game_event_effect : ℤ → Run EventsState (Unit {0})
  game_event_effect now s = with_both (truthy_id s.world.room.room_id) s.world.room.last_game_event
    where
      with_both : Option Text → Option GameEvent → Outcome (Unit {0}) × EventsState
      with_both (some room_id) (some e) = dispatch now room_id e s
      with_both _ _ = (returns tt, s)

-- storedEndTime && storedEndTime > Date.now()
abbrev pub should_resume : ℤ → Option Number → Bool
should_resume now none = false
should_resume now (some t) = num_truthy t && num_lt (finite now) t

abbrev pub is_start : Option EventType → Bool
is_start (some round_start) = true
is_start (some join_round) = true
is_start _ = false

abbrev pub event_eq : Option EventType → Option EventType → Bool
event_eq (some round_start) (some round_start) = true
event_eq (some next_problem) (some next_problem) = true
event_eq (some round_end) (some round_end) = true
event_eq (some join_round) (some join_round) = true
event_eq _ _ = false

abbrev pub is_empty : List Text → Bool
is_empty [] = true
is_empty (p ∷ ps) = false

-- The early returns of the effect on mount.
abbrev pub skips_resume : ℤ → EventsState → Bool
skips_resume now s =
    let d = s.world.storage in
    not (is_some (truthy_id s.world.room.room_id))
    || (not s.world.available
        || (not (is_start d.last_game_event)
            || (event_eq s.last_game d.last_game_event
                || (not (should_resume now d.round_end_time) || is_empty (or_else d.problems [])))))

-- The effect on mount: a reload during a running round goes back to a problem of the round. The
-- ref starts as the empty string, which is no event type.
unfoldable pub resume_on_mount : (ℕ → Text → Option Tab) → ℤ → EventsState → EventsState
resume_on_mount update now s =
    if skips_resume now s
    then s
    else on_world
        (navigate update (λ url. resolve_resume_slug url (or_else s.world.storage.problems []))) s

-- handleEndRound: what its response changes. Alerts and logs are not modelled.
unfoldable pub handle_end_round : Reply → World → World
handle_end_round reply w = in_room (truthy_id w.room.room_id) (ok_body reply)
  where
    in_room : Option Text → Option Json → World
    in_room (some room_id) (some body) =
        on_room (λ r. set_has_round_ended true (set_is_round_started false r)) w
    in_room _ _ = w

-- Its timeout, two seconds later.
unfoldable pub end_round_timeout : World → World
end_round_timeout w =
    on_storage (λ d. record d { round_end_time = none; last_game_event = none; problems = none })
      (on_room (set_round_end_time none) w)

-- What the panel clears once the server has confirmed that the user left. A room id of null is
-- written `null` into the key.
unfoldable pub clear_left_room : ℤ → World → World
clear_left_room now w =
    let key = left_key (or_else w.room.room_id (codes "null")) now in
    let forget =
      on_storage
        (λ d. record d {
          active_room_id = none;
          round_end_time = none;
          last_game_event = none;
          problems = none;
        })
        w in
    push (codes "/start-page")
      (on_room reset_room (send_message (problem_progress_reset key) forget))

-- handleLeaveRoom: nothing without a room and a user; a refused or failed request is only logged.
unfoldable pub handle_leave_room : ℤ → Reply → World → World
unfolding clear_left_room
handle_leave_room now reply w =
    if not (is_some (truthy_id w.room.room_id)) && not (is_some (truthy_id w.user.user_id))
    then w
    else left (ok_body reply)
  where
    left : Option Json → World
    left (some body) = clear_left_room now w
    left none = w
