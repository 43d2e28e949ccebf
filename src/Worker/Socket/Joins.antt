-- ===== src/Worker/Socket/Joins.antt =====
-- The room that the worker's connection is in: bsg-frontend/extension/background.js.
use bsg.Prelude.{
  ℕ, zero, suc, Bool, true, Option, none, some, List, [], ◌∷◌, ◌++◌, ◌==◌, ◌≡◌, ◌≢◌, refl, sym, ap,
  arith, if◌then◌else◌, Text, codes, is_some, some_eq, ==_iff, subst,
}
use bsg.Prelude.Json.{Json}
use bsg.World.{LocalStorage, truthy_id}
use bsg.Worker.Socket.Frames.{on_message-Notes}
use bsg.Worker.Socket.{
  ReadyState, connecting, opened, closing, closed, JoinRoom, WorkerState, room_and_user, join_on,
  join_if, join_current, send_join_room, set_ready, new_socket, connect_over, connect_from,
  connect_web_socket, connect_if_ready, on_open, on_close, on_timeout, finish_logout, initialize,
  on_room_changed, on_user_changed, Event, initialized, room_changed, user_changed, socket_opened,
  socket_closed, received, timed_out, logged_out, open_from, close_from, time_out, or_truthy, step,
  run, started,
}

-- The last room and name that were sent on a socket.
abbrev pub last_join : ℕ → List JoinRoom → Option (Text × Text)
last_join i [] = none
last_join i (j ∷ js) = if j.socket == i then some (j.room_id, j.name) else last_join i js

-- The current socket, if it is open, has last been joined to the current room in the current user's
-- name, if there are both.
Joined : WorkerState → Type 0
Joined w =
    (i : ℕ) (room user : Text)
    → w.socket ≡ some i
    → w.ready_state i ≡ opened
    → room_and_user w ≡ some (room, user)
    → last_join i w.joins ≡ some (room, user ++ codes "_bg")

module _ (w : WorkerState) (j : ℕ) (at : w.socket ≡ some j) where
  join_on-Joined : (ru : Option (Text × Text)) → room_and_user w ≡ ru → Joined (join_on j ru w)
  unfolding Joined
  join_on-Joined none e i room user s o r = absurd cc
  join_on-Joined (some (room', user')) e i room user s o r =
      let same : (room', user') ≡ (room, user) = some_eq e r in
      let here : (j == i) ≡ true = (==_iff j i).1 (some_eq at s) in
      rw here (ap (λ (r, u). some (r, u ++ codes "_bg")) same)

  join_if-Joined : (state : ReadyState) → w.ready_state j ≡ state → Joined (join_if j state w)
  unfolding Joined
  join_if-Joined opened e i room user s o r =
      join_on-Joined (room_and_user w) refl i room user s o r
  join_if-Joined connecting e i room user s o r = absurd cc
  join_if-Joined closing e i room user s o r = absurd cc
  join_if-Joined closed e i room user s o r = absurd cc

join_current-Joined : (w : WorkerState) (o : Option ℕ) → w.socket ≡ o → Joined (join_current o w)
unfolding Joined
join_current-Joined w none e i room user s o r = absurd cc
join_current-Joined w (some j) e i room user s o r =
    join_if-Joined w j e (w.ready_state j) refl i room user s o r

send_join_room-Joined : (w : WorkerState) → Joined (send_join_room w)
unfolding send_join_room
send_join_room-Joined w = join_current-Joined w w.socket refl

-- What is only done with a room and a user.
if_ready-Joined :
    (w t : WorkerState) → Joined t → Joined (if is_some (room_and_user w) then t else w)
unfolding Joined
if_ready-Joined w t h = go (room_and_user w) refl
  where
    go : (ru : Option (Text × Text)) → room_and_user w ≡ ru → Joined (if is_some ru then t else w)
    go none e i room user s o r = absurd cc
    go (some x) e i room user s o r = h i room user s o r

new_socket-Joined : (w : WorkerState) → Joined (new_socket w)
unfolding Joined
new_socket-Joined w i room user s o r = absurd (ground arith)

still_connecting :
    (w : WorkerState) (i j : ℕ)
    → w.socket ≡ some j
    → w.ready_state j ≡ connecting
    → w.socket ≡ some i
    → w.ready_state i ≢ opened
still_connecting w i j at e s o = cc

no_room :
    (w : WorkerState) {x : Text × Text}
    → truthy_id w.active_room_id ≡ none
    → room_and_user w ≢ some x
no_room w {x} e = rw e (λ r. cc)

connect_web_socket-Joined : (w : WorkerState) → Joined (connect_web_socket w)
unfolding connect_web_socket connect_over Joined
connect_web_socket-Joined w = from w.socket refl
  where
    over :
        (j : ℕ)
        → w.socket ≡ some j
        → (state : ReadyState) → w.ready_state j ≡ state
        → Joined (connect_over state w)
    over j at opened e i room user s o r =
        if_ready-Joined w (send_join_room w) (send_join_room-Joined w) i room user s o r
    over j at connecting e i room user s o r = absurd (still_connecting w i j at e s o)
    over j at closing e i room user s o r = new_socket-Joined w i room user s o r
    over j at closed e i room user s o r = new_socket-Joined w i room user s o r

    from : (o : Option ℕ) → w.socket ≡ o → Joined (connect_from o w)
    from none e = new_socket-Joined w
    from (some j) e = over j e (w.ready_state j) refl

connect_if_ready-Joined : (w : WorkerState) → Joined (connect_if_ready w)
connect_if_ready-Joined w = if_ready-Joined w (connect_web_socket w) (connect_web_socket-Joined w)

on_timeout-Joined : (w : WorkerState) → Joined (on_timeout w)
unfolding on_timeout Joined
on_timeout-Joined w = go (truthy_id w.active_room_id) refl
  where
    go :
        (o : Option Text)
        → truthy_id w.active_room_id ≡ o
        → Joined (if is_some o then connect_web_socket w else w)
    go none e i room user s o r = absurd (no_room w e r)
    go (some x) e i room user s o r = connect_web_socket-Joined w i room user s o r

on_open-Joined : (w : WorkerState) → Joined (on_open w)
unfolding on_open
on_open-Joined w = if_ready-Joined w (send_join_room w) (send_join_room-Joined w)

no_socket-Joined : (w : WorkerState) → w.socket ≡ none → Joined w
unfolding Joined
no_socket-Joined w n i room user s o r = absurd cc

open_from-Joined :
    (state : ReadyState) (i : ℕ) (w : WorkerState) → Joined w → Joined (open_from state i w)
unfolding open_from on_open
open_from-Joined connecting i w h = on_open-Joined (set_ready i opened w)
open_from-Joined opened i w h = h
open_from-Joined closing i w h = h
open_from-Joined closed i w h = h

close_from-Joined :
    (state : ReadyState) (i : ℕ) (w : WorkerState) → Joined w → Joined (close_from state i w)
unfolding on_close close_from
close_from-Joined closed i w h = h
close_from-Joined connecting i w h = no_socket-Joined (close_from connecting i w) refl
close_from-Joined opened i w h = no_socket-Joined (close_from opened i w) refl
close_from-Joined closing i w h = no_socket-Joined (close_from closing i w) refl

time_out-Joined : (n : ℕ) (w : WorkerState) → Joined w → Joined (time_out n w)
time_out-Joined zero w h = h
time_out-Joined (suc n) w h = on_timeout-Joined record w { timers = n }

noted_joins :
    (w : WorkerState) (d : LocalStorage) (badge : Text) (notified : Bool)
    → Joined w
    → Joined record w { storage = d; badge = badge; notified = notified }
unfolding Joined
noted_joins w d badge notified h = h

step-Joined :
    (parse : Text → Option Json) (e : Event) (w : WorkerState) → Joined w → Joined (step parse e w)
unfolding step initialize on_room_changed on_user_changed finish_logout
step-Joined parse (initialized room user) w h = connect_if_ready-Joined record w {
  active_room_id = or_truthy (truthy_id room) w.active_room_id;
  user_profile = or_truthy user w.user_profile;
}
step-Joined parse (room_changed room) w h =
    connect_if_ready-Joined record w { active_room_id = room }
step-Joined parse (user_changed user) w h = connect_if_ready-Joined record w { user_profile = user }
step-Joined parse (socket_opened i) w h = open_from-Joined (w.ready_state i) i w h
step-Joined parse (socket_closed i) w h = close_from-Joined (w.ready_state i) i w h
step-Joined parse (received frame) w h =
    let (d, badge, notified, same) = on_message-Notes parse frame w in
    subst Joined (sym same) (noted_joins w d badge notified h)
step-Joined parse timed_out w h = time_out-Joined w.timers w h
step-Joined parse logged_out w h = no_socket-Joined (finish_logout w) refl

run-Joined :
    (parse : Text → Option Json) (es : List Event) (w : WorkerState)
    → Joined w
    → Joined (run parse es w)
unfolding run
run-Joined parse [] w h = h
run-Joined parse (e ∷ es) w h = run-Joined parse es (step parse e w) (step-Joined parse e w h)

-- Over every course of events, logouts included, if the current socket is open and there are a
-- room and a user, then the last join-room that was sent on it names them.
pub run-last_join :
    (parse : Text → Option Json) (storage : LocalStorage) (es : List Event) (i : ℕ)
    (room user : Text)
    → (run parse es (started storage)).socket ≡ some i
    → (run parse es (started storage)).ready_state i ≡ opened
    → room_and_user (run parse es (started storage)) ≡ some (room, user)
    → last_join i (run parse es (started storage)).joins ≡ some (room, user ++ codes "_bg")
unfolding Joined
run-last_join parse storage es =
    run-Joined parse es (started storage) (no_socket-Joined (started storage) refl)
