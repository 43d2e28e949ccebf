-- ===== src/Events.antt =====
-- Game events in the panel: the hook of bsg-frontend/apps/extension/hooks/useRoomEvents.ts.
-- `now` is what `Date.now()` returns in the call; `update` is `chrome.tabs.update`.
pub mod Keys
pub mod Handlers
pub mod Timing
pub mod Rounds
use bsg.Prelude.{
  ℕ, Bool, true, false, ◌&&◌, not, Option, none, some, List, [], ◌∷◌, ◌++◌, if◌then◌else◌, Text,
  codes, text_or, join, nonempty, text_eq, or_else,
}
use bsg.Prelude.Int.{ℤ, pos, Number, finite, num_add, num_sub, num_mul, num_lt, num_truthy}
use bsg.Prelude.Decimal.{integer_text}
use bsg.Prelude.Json.{
  Json, str, null, arr, nil, truthy, or_json, get, get_opt, is_str, to_number, string_elements,
  json_text, as_text,
}
use bsg.Prelude.Effects.{Outcome, Run, returns, throws, modify, need, gets, return, ◌>>=◌, ◌>>◌}
use bsg.Navigation.{Tab, Tabs, navigate_active_tab, resolve_resume_slug}
use bsg.Stores.Room.{
  RoomState, EventType, round_start, next_problem, round_end, join_round, GameEvent, chat,
  set_round_end_time, set_is_round_started, set_has_round_ended, set_active_tab, reset_room,
}
use bsg.World.{
  World, LocalStorage, Message, problem_progress_reset, on_room, on_storage, set_badge,
  send_message, push, request_participants, truthy_id,
}

-- The hook's own state beside the world: `nextProblem`, and the ref that holds the last event type.
pub record EventsState : Type 0 where
  pub world : World
  pub next_problem : Option Text
  pub last_game : Option EventType

abbrev pub on_world : (World → World) → EventsState → EventsState
on_world f s = record s { world = f s.world }

-- data && typeof data === 'object' && data.startTime
abbrev pub is_round_data : Json → Bool
is_round_data v = truthy (get_opt v (codes "startTime"))

abbrev pub number_field : Json → Text → Number
number_field v k = to_number (get_opt v k)

abbrev pub minute_s : Number
minute_s = finite (pos 60)

abbrev pub second_ms : Number
second_ms = finite (pos 1000)

-- data.duration * 60 * 1000
abbrev pub duration_ms : Json → Number
duration_ms v = num_mul (num_mul (number_field v (codes "duration")) minute_s) second_ms

unfoldable pub round_data_end_time : ℤ → Json → Number
round_data_end_time now v =
    if truthy (get_opt v (codes "serverNow"))
    then num_add
        (num_add (finite now) (
          num_mul
            (num_sub (number_field v (codes "startTime")) (number_field v (codes "serverNow")))
            second_ms))
        (duration_ms v)
    else num_add (num_mul (number_field v (codes "startTime")) second_ms) (duration_ms v)

-- Date.now() + 30 * 60 * 1000
unfoldable pub legacy_end_time : ℤ → Number
legacy_end_time now = num_add (finite now) (finite (pos 1_800_000))

unfoldable pub end_time_of : ℤ → Json → Number
unfolding round_data_end_time legacy_end_time
end_time_of now v = if is_round_data v then round_data_end_time now v else legacy_end_time now

-- `data.problems || []`, where the server sends an array of strings
unfoldable pub problems_of : Json → List Text
problems_of v =
    if is_round_data v
    then string_elements (or_json (get_opt v (codes "problems")) (arr nil))
    else []

unfoldable pub round_key : Text → Json → List Text → Text
round_key room_id v problems =
    if is_round_data v
    then room_id ++ (codes "|" ++ json_text (get_opt v (codes "startTime")))
    else room_id ++ (codes "|legacy|" ++ text_or (join (codes "|") problems) (codes "round"))

unfoldable pub ended_key : Text → ℤ → Text
ended_key room_id now = room_id ++ (codes "|ended|" ++ integer_text now)

unfoldable pub left_key : Text → ℤ → Text
left_key room_id now = room_id ++ (codes "|left|" ++ integer_text now)

abbrev pub set_next_problem : Option Text → EventsState → EventsState
set_next_problem p s = record s { next_problem = p }

-- LastGameRef.current = type
abbrev pub set_last_game : EventType → EventsState → EventsState
set_last_game t s = record s { last_game = some t }

abbrev pub save_last_game : EventType → World → World
save_last_game t = on_storage (λ d. record d { last_game_event = some t })

-- data?.userID === userId
abbrev same_user : Json → Option Text → Bool
same_user (str t) (some id) = text_eq t id
same_user null none = true
same_user v id = false

-- Only the user who joined a round in progress is set up and navigated.
abbrev pub is_own_join : Json → Option Text → Bool
is_own_join v user_id =
    same_user (get_opt v (codes "userID")) user_id
    && is_str (get_opt v (codes "roundStatus")) (codes "in-progress")

module _ (update : ℕ → Text → Option Tab) where
  abbrev pub navigate : (Text → Option Text) → World → World
  navigate decide w = record w { tabs = navigate_active_tab update decide w.tabs }

  -- if (problems.length > 0) { ... }
  unfoldable pub open_problems : List Text → World → World
  open_problems [] w = w
  open_problems (p ∷ ps) w =
      navigate (λ url. resolve_resume_slug url (p ∷ ps))
        (on_storage (λ d. record d { problems = some (p ∷ ps) }) w)

  -- The part of `applyRoundData` that writes the stores, in the order of the source.
  unfoldable pub start_round : ℤ → Text → Json → World → World
  start_round now room_id v w =
      let end_time = end_time_of now v in
      let w₁ =
        on_room
          (λ r.
            set_has_round_ended false
              (set_is_round_started true (set_round_end_time (some end_time) r)))
          w in
      let w₂ = on_storage (λ d. record d { round_end_time = some end_time }) w₁ in
      let w₃ = send_message (problem_progress_reset (round_key room_id v (problems_of v))) w₂ in
      set_badge [] (on_storage (λ d. record d { next_problem = none }) w₃)

  unfoldable pub apply_round_data : ℤ → Text → Json → EventsState → EventsState
  unfolding start_round
  apply_round_data now room_id v s = record s {
    next_problem = none;
    world = open_problems (problems_of v) (start_round now room_id v s.world);
  }

  unfoldable pub on_round_start : ℤ → Text → Json → EventsState → EventsState
  on_round_start now room_id v s = on_world (save_last_game round_start) (
      apply_round_data now room_id v
        (on_world (request_participants room_id) (set_last_game round_start s)))

  unfoldable pub on_join_round : ℤ → Text → Json → EventsState → EventsState
  on_join_round now room_id v s =
      let s' = on_world (request_participants room_id) (set_last_game join_round s) in
      if is_own_join v s.world.user.user_id
      then on_world (save_last_game join_round) (apply_round_data now room_id v s')
      else s'
