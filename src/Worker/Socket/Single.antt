-- ===== src/Worker/Socket/Single.antt =====
-- How many connections the worker has: bsg-frontend/extension/background.js.
use bsg.Prelude.{
  ℕ, zero, suc, Bool, true, false, Option, none, some, List, [], ◌∷◌, ◌==◌, ◌≡◌, ◌≢◌, refl, sym, ap,
  arith, if◌then◌else◌, Text, is_some, Bool-cases, some_eq, inl, inr, ==_iff, subst,
}
use bsg.Prelude.Json.{Json}
use bsg.World.{LocalStorage, truthy_id}
use bsg.Worker.Socket.Frames.{on_message-Notes}
use bsg.Worker.Socket.{
  ReadyState, connecting, opened, closing, closed, WorkerState, room_and_user, join_on, join_if,
  join_current, send_join_room, set_ready, new_socket, connect_over, connect_from,
  connect_web_socket, connect_if_ready, on_open, on_close, on_timeout, initialize, on_room_changed,
  on_user_changed, Event, initialized, room_changed, user_changed, socket_opened, socket_closed,
  received, timed_out, logged_out, open_from, close_from, time_out, or_truthy, step, run, started,
}

-- No event is a LOGOUT.
abbrev pub stays : List Event → Bool
stays [] = true
stays (logged_out ∷ es) = false
stays (e ∷ es) = stays es

-- Every socket that is not closed is the current one, and none is being closed.
IsSingle : Option ℕ → (ℕ → ReadyState) → Type 0
IsSingle socket ready_state =
    (j : ℕ) → ready_state j ≢ closed → (socket ≡ some j) × (ready_state j ≢ closing)

Single : WorkerState → Type 0
unfolding IsSingle
Single w = IsSingle w.socket w.ready_state

if_Single : (b : Bool) (t u : WorkerState) → Single t → Single u → Single (if b then t else u)
unfolding Single IsSingle
if_Single true t u p q = p
if_Single false t u p q = q

join_current-Single : (o : Option ℕ) (w : WorkerState) → Single w → Single (join_current o w)
unfolding Single IsSingle
join_current-Single none w h = h
join_current-Single (some i) w h = over (w.ready_state i)
  where
    on : (ru : Option (Text × Text)) → Single (join_on i ru w)
    on none = h
    on (some x) = h

    over : (state : ReadyState) → Single (join_if i state w)
    over opened = on (room_and_user w)
    over connecting = h
    over closing = h
    over closed = h

closed_of : (state : ReadyState) → ¬ (state ≢ closed) → state ≡ closed
closed_of closed h = refl
closed_of connecting h = absurd (h (λ q. cc))
closed_of opened h = absurd (h (λ q. cc))
closed_of closing h = absurd (h (λ q. cc))

new_socket-Single : (w : WorkerState) → ((j : ℕ) → w.ready_state j ≡ closed) → Single (new_socket w)
unfolding Single IsSingle
new_socket-Single w h j l = elim (Bool-cases (j == w.made)) [
  | inl e ↦ rw e (ap some (sym ((==_iff j w.made).0 e)), λ q. cc)
  | inr e ↦ absurd (l (rw e (h j)))
]

connect_web_socket-Single : (w : WorkerState) → Single w → Single (connect_web_socket w)
unfolding connect_web_socket send_join_room connect_over Single IsSingle
connect_web_socket-Single w h = from w.socket refl
  where
    over :
        (i : ℕ)
        → w.socket ≡ some i
        → (state : ReadyState) → w.ready_state i ≡ state
        → Single (connect_over state w)
    over i at opened e =
        if_Single (is_some (room_and_user w)) (send_join_room w) w
          (join_current-Single w.socket w h) h
    over i at connecting e = h
    over i at closing e = let (_, not_closing) = h i (λ q. cc) in absurd (not_closing e)
    over i at closed e =
        new_socket-Single w (λ j. closed_of (w.ready_state j) (λ l. let (s, _) = h j l in l cc))

    from : (o : Option ℕ) → w.socket ≡ o → Single (connect_from o w)
    from none e =
        new_socket-Single w (λ j. closed_of (w.ready_state j) (λ l. let (s, _) = h j l in cc))
    from (some i) e = over i e (w.ready_state i) refl

connect_if_ready-Single : (w : WorkerState) → Single w → Single (connect_if_ready w)
connect_if_ready-Single w h =
    if_Single (is_some (room_and_user w)) (connect_web_socket w) w (connect_web_socket-Single w h) h

on_timeout-Single : (w : WorkerState) → Single w → Single (on_timeout w)
unfolding on_timeout
on_timeout-Single w h =
    if_Single (is_some (truthy_id w.active_room_id)) (connect_web_socket w) w
      (connect_web_socket-Single w h) h

on_open-Single : (w : WorkerState) → Single w → Single (on_open w)
unfolding on_open send_join_room
on_open-Single w h =
    if_Single (is_some (room_and_user w)) (send_join_room w) w (join_current-Single w.socket w h) h

-- A socket that was connecting is open now.
opened-Single :
    (i : ℕ) (w : WorkerState)
    → w.ready_state i ≡ connecting
    → Single w
    → Single (set_ready i opened w)
unfolding Single IsSingle
opened-Single i w e h j l = elim (Bool-cases (j == i)) [
  | inl q ↦ let same : j ≡ i = (==_iff j i).0 q in let (s, _) = h i (λ r. cc) in rw q (cc, λ r. cc)
  | inr q ↦ let (s, rest) = h j (λ r. l (rw q r)) in rw q (s, rest)
]

-- The current socket is closed now.
closed-Single :
    (i : ℕ) (w : WorkerState)
    → w.ready_state i ≢ closed
    → Single w
    → Single (on_close (set_ready i closed w))
unfolding Single IsSingle on_close
closed-Single i w e h j l = elim (Bool-cases (j == i)) [
  | inl q ↦ absurd (l (rw q refl))
  | inr q ↦
      let (s, _) = h j (λ r. l (rw q r)) in
      let (t, _) = h i e in let same : j ≡ i = some_eq s t in absurd (ground arith)
]

step-Single :
    (parse : Text → Option Json) (e : Event) (w : WorkerState)
    → stays (e ∷ []) ≡ true
    → Single w
    → Single (step parse e w)
unfolding step initialize on_room_changed on_user_changed open_from close_from on_open on_close
    on_timeout Single
step-Single parse (initialized room user) w n h =
    connect_if_ready-Single
      record w {
        active_room_id = or_truthy (truthy_id room) w.active_room_id;
        user_profile = or_truthy user w.user_profile;
      }
      h
step-Single parse (room_changed room) w n h =
    connect_if_ready-Single record w { active_room_id = room } h
step-Single parse (user_changed user) w n h =
    connect_if_ready-Single record w { user_profile = user } h
step-Single parse (socket_opened i) w n h = go (w.ready_state i) refl
  where
    go : (state : ReadyState) → w.ready_state i ≡ state → Single (open_from state i w)
    go connecting e = on_open-Single (set_ready i opened w) (opened-Single i w e h)
    go opened e = h
    go closing e = h
    go closed e = h
step-Single parse (socket_closed i) w n h = go (w.ready_state i) refl
  where
    go : (state : ReadyState) → w.ready_state i ≡ state → Single (close_from state i w)
    go closed e = h
    go connecting e = closed-Single i w (λ q. cc) h
    go opened e = closed-Single i w (λ q. cc) h
    go closing e = closed-Single i w (λ q. cc) h
step-Single parse (received frame) w n h =
    let (d, badge, notified, same) = on_message-Notes parse frame w in subst Single (sym same) h
step-Single parse timed_out w n h = go w.timers
  where
    go : (n : ℕ) → Single (time_out n w)
    go zero = h
    go (suc n) = on_timeout-Single record w { timers = n } h
step-Single parse logged_out w n h = absurd cc

stays-cons :
    (e : Event) (es : List Event)
    → stays (e ∷ es) ≡ true
    → (stays (e ∷ []) ≡ true) × (stays es ≡ true)
stays-cons (initialized room user) es h = (refl, h)
stays-cons (room_changed room) es h = (refl, h)
stays-cons (user_changed user) es h = (refl, h)
stays-cons (socket_opened i) es h = (refl, h)
stays-cons (socket_closed i) es h = (refl, h)
stays-cons (received frame) es h = (refl, h)
stays-cons timed_out es h = (refl, h)
stays-cons logged_out es h = absurd cc

run-Single :
    (parse : Text → Option Json) (es : List Event) (w : WorkerState)
    → stays es ≡ true
    → Single w
    → Single (run parse es w)
unfolding run
run-Single parse [] w n h = h
run-Single parse (e ∷ es) w n h =
    let (first, rest) = stays-cons e es n in
    run-Single parse es (step parse e w) rest (step-Single parse e w first h)

run-one_socket :
    (parse : Text → Option Json) (storage : LocalStorage) (es : List Event) (i : ℕ)
    → stays es ≡ true
    → (run parse es (started storage)).ready_state i ≢ closed
    → (run parse es (started storage)).socket ≡ some i
unfolding Single IsSingle
run-one_socket parse storage es i n l =
    let (current, _) = run-Single parse es (started storage) n (λ j k. absurd (k refl)) i l in
    current
