-- ===== src/Worker/Socket.antt =====
-- The background worker's own connection, by which it learns of a next problem while no panel is
-- open: bsg-frontend/extension/background.js from `let socket` on, and its LOGOUT branch. The object
-- that `new WebSocket` makes is a number; `JSON.parse` is a parameter.
pub mod Frames
pub mod Joins
pub mod Single
use bsg.Prelude.{
  ℕ, zero, suc, ◌+◌, ◌-◌, Bool, true, false, ◌&&◌, ◌||◌, not, Option, none, some, List, [], ◌∷◌,
  ◌++◌, ◌==◌, if◌then◌else◌, Text, codes, text_eq, is_some,
}
use bsg.Prelude.Json.{Json, undefined, null, str, arr, obj, truthy, is_str, get_opt, as_text}
use bsg.World.{LocalStorage, truthy_id}

-- WebSocket's readyState; `closed` also stands for one that has not been made.
pub data ReadyState : Type 0 where
  connecting opened closing closed : ReadyState

-- The join-room request, with the socket that it is sent on.
pub record JoinRoom : Type 0 where
  pub socket : ℕ
  pub name : Text
  pub room_id : Text

pub record WorkerState : Type 0 where
  -- `socket`, and the state of every one that was made
  pub socket : Option ℕ
  pub ready_state : ℕ → ReadyState
  pub made : ℕ
  pub active_room_id : Option Text
  -- `userProfile`, by its id
  pub user_profile : Option Text
  -- the `setTimeout` calls that have not fired
  pub timers : ℕ
  -- newest first
  pub joins : List JoinRoom
  pub storage : LocalStorage
  pub badge : Text
  pub notified : Bool

abbrev both : Option Text → Option Text → Option (Text × Text)
both (some room) (some user) = some (room, user)
both room user = none

-- activeRoomId && userProfile
abbrev pub room_and_user : WorkerState → Option (Text × Text)
room_and_user w = both (truthy_id w.active_room_id) w.user_profile

abbrev pub join_on : ℕ → Option (Text × Text) → WorkerState → WorkerState
join_on i none w = w
join_on i (some (room, user)) w = record w {
  joins = record { socket = i; name = user ++ codes "_bg"; room_id = room } ∷ w.joins;
}

abbrev pub join_if : ℕ → ReadyState → WorkerState → WorkerState
join_if i opened w = join_on i (room_and_user w) w
join_if i state w = w

abbrev pub join_current : Option ℕ → WorkerState → WorkerState
join_current none w = w
join_current (some i) w = join_if i (w.ready_state i) w

unfoldable pub send_join_room : WorkerState → WorkerState
send_join_room w = join_current w.socket w

abbrev pub set_ready : ℕ → ReadyState → WorkerState → WorkerState
set_ready i state w = record w { ready_state = λ j. if j == i then state else w.ready_state j }

-- socket = new WebSocket(CONFIG.RTC_SERVICE_URL)
abbrev pub new_socket : WorkerState → WorkerState
new_socket w =
    let t = set_ready w.made connecting w in record t { socket = some w.made; made = suc w.made }

unfoldable pub connect_over : ReadyState → WorkerState → WorkerState
unfolding send_join_room
connect_over opened w = if is_some (room_and_user w) then send_join_room w else w
connect_over connecting w = w
connect_over state w = new_socket w

abbrev pub connect_from : Option ℕ → WorkerState → WorkerState
connect_from none w = new_socket w
connect_from (some i) w = connect_over (w.ready_state i) w

unfoldable pub connect_web_socket : WorkerState → WorkerState
connect_web_socket w = connect_from w.socket w

abbrev pub connect_if_ready : WorkerState → WorkerState
connect_if_ready w = if is_some (room_and_user w) then connect_web_socket w else w

-- The handlers of a socket.
unfoldable pub on_open : WorkerState → WorkerState
unfolding send_join_room
on_open w = if is_some (room_and_user w) then send_join_room w else w

unfoldable pub on_close : WorkerState → WorkerState
on_close w = record w { socket = none; timers = suc w.timers }

unfoldable pub on_timeout : WorkerState → WorkerState
on_timeout w = if is_some (truthy_id w.active_room_id) then connect_web_socket w else w

abbrev pub on_storage : (LocalStorage → LocalStorage) → WorkerState → WorkerState
on_storage f w = record w { storage = f w.storage }

abbrev own_handle : Option Text → Json → Bool
own_handle none v = false
own_handle (some id) v = is_str v id

-- handleNextProblem, behind the parsing of a text: a value that is no object has no `userHandle`.
abbrev pub take_next_problem : Json → WorkerState → WorkerState
take_next_problem v w =
    if own_handle w.user_profile (get_opt v (codes "userHandle"))
    then (let t =
          on_storage (λ d. record d { next_problem = as_text (get_opt v (codes "nextProblem")) })
            w in
        record t { badge = codes "!" })
    else w

abbrev pub parsed_next_problem : Option Json → WorkerState → WorkerState
parsed_next_problem none w = w
parsed_next_problem (some v) w = take_next_problem v w

abbrev pub on_round_end : WorkerState → WorkerState
on_round_end w =
    let t = on_storage (λ d. record d { next_problem = none }) w in record t { badge = [] }

abbrev pub on_room_expired : WorkerState → WorkerState
on_room_expired w =
    let t =
      on_storage
        (λ d. record d { active_room_id = none; next_problem = none; round_end_time = none }) w in
    record t { badge = []; notified = true }

module _ (parse : Text → Option Json) where
  unfoldable pub handle_next_problem : Json → WorkerState → WorkerState
  handle_next_problem (str s) w = parsed_next_problem (parse s) w
  handle_next_problem v w = take_next_problem v w

  abbrev pub on_response_type : Json → Json → WorkerState → WorkerState
  unfolding handle_next_problem
  on_response_type kind message w =
      if is_str kind (codes "next-problem")
      then (if truthy message && truthy (get_opt message (codes "data"))
          then handle_next_problem (get_opt message (codes "data")) w
          else w)
      else if is_str kind (codes "round-end")
      then on_round_end w
      else if is_str kind (codes "room-expired")
      then on_room_expired w
      else w

  abbrev pub on_response : Option Json → WorkerState → WorkerState
  on_response none w = w
  on_response (some v) w =
      if is_str (get_opt v (codes "status")) (codes "ok")
      then on_response_type (get_opt v (codes "responseType")) (get_opt v (codes "message")) w
      else w

  -- What throws is caught, before anything is changed.
  unfoldable pub on_message : Text → WorkerState → WorkerState
  on_message frame w = on_response (parse frame) w

-- socket.close()
abbrev closing_of : ReadyState → ReadyState
closing_of closed = closed
closing_of state = closing

-- The LOGOUT branch, up to the removal of the keys.
abbrev close_socket : Option ℕ → WorkerState → WorkerState
close_socket none w = w
close_socket (some i) w = set_ready i (closing_of (w.ready_state i)) w

unfoldable pub finish_logout : WorkerState → WorkerState
finish_logout w =
    let t = close_socket w.socket w in
    record t {
      active_room_id = none;
      socket = none;
      storage = record t.storage {
        user = none;
        active_room_id = none;
        round_end_time = none;
        next_problem = none;
        problems = none;
        last_game_event = none;
      };
      badge = [];
    }

abbrev pub or_truthy : Option Text → Option Text → Option Text
or_truthy none old = old
or_truthy (some t) old = some t

-- The first read of the storage.
unfoldable pub initialize : Option Text → Option Text → WorkerState → WorkerState
initialize room user w = connect_if_ready record w {
  active_room_id = or_truthy (truthy_id room) w.active_room_id;
  user_profile = or_truthy user w.user_profile;
}

-- The two branches of `chrome.storage.onChanged`.
unfoldable pub on_room_changed : Option Text → WorkerState → WorkerState
on_room_changed room w = connect_if_ready record w { active_room_id = room }

unfoldable pub on_user_changed : Option Text → WorkerState → WorkerState
on_user_changed user w = connect_if_ready record w { user_profile = user }

-- What can happen to the worker. A socket opens only if it was connecting, and closes only once.
pub data Event : Type 0 where
  initialized : Option Text → Option Text → Event
  room_changed : Option Text → Event
  user_changed : Option Text → Event
  socket_opened : ℕ → Event
  socket_closed : ℕ → Event
  received : Text → Event
  timed_out : Event
  logged_out : Event

unfoldable pub open_from : ReadyState → ℕ → WorkerState → WorkerState
unfolding on_open
open_from connecting i w = on_open (set_ready i opened w)
open_from state i w = w

unfoldable pub close_from : ReadyState → ℕ → WorkerState → WorkerState
unfolding on_close
close_from closed i w = w
close_from state i w = on_close (set_ready i closed w)

abbrev pub time_out : ℕ → WorkerState → WorkerState
time_out zero w = w
time_out (suc n) w = on_timeout record w { timers = n }

unfoldable pub step : (Text → Option Json) → Event → WorkerState → WorkerState
unfolding on_timeout finish_logout initialize on_room_changed on_user_changed on_message
step parse (initialized room user) w = initialize room user w
step parse (room_changed room) w = on_room_changed room w
step parse (user_changed user) w = on_user_changed user w
step parse (socket_opened i) w = open_from (w.ready_state i) i w
step parse (socket_closed i) w = close_from (w.ready_state i) i w
step parse (received frame) w = on_message parse frame w
step parse timed_out w = time_out w.timers w
step parse logged_out w = finish_logout w

unfoldable pub run : (Text → Option Json) → List Event → WorkerState → WorkerState
run parse [] w = w
run parse (e ∷ es) w = run parse es (step parse e w)

-- A worker that was just started.
abbrev pub started : LocalStorage → WorkerState
started storage = record {
  socket = none;
  ready_state = λ i. closed;
  made = 0;
  active_room_id = none;
  user_profile = none;
  timers = 0;
  joins = [];
  storage = storage;
  badge = [];
  notified = false;
}
