-- ===== src/JoinForm.antt =====
-- The form for joining a room: bsg-frontend/apps/extension/hooks/useJoinRoom.ts, with the input and
-- the button of bsg-frontend/apps/extension/pages/room-choice-page.tsx. `onJoin` is `joinRoom`.
pub mod Single
use bsg.Prelude.{
  ℕ, zero, suc, Bool, true, false, Option, none, some, List, [], ◌∷◌, if◌then◌else◌, Text, trim,
  nonempty,
}
use bsg.RoomInit.Flows.{ActionResult, success, failure}

-- `running` counts the calls of `onJoin` that have not settled, and `sent` has their codes.
pub record JoinForm : Type 0 where
  pub join_code : Text
  pub form_error : Option Text
  pub is_submitting_join : Bool
  pub running : ℕ
  pub sent : List Text

abbrev pub empty_form : JoinForm
empty_form = record {
  join_code = [];
  form_error = none;
  is_submitting_join = false;
  running = 0;
  sent = [];
}

unfoldable pub handle_join_room : JoinForm → JoinForm
handle_join_room t =
    if nonempty (trim t.join_code)
    then record t {
      form_error = none;
      is_submitting_join = true;
      running = suc t.running;
      sent = trim t.join_code ∷ t.sent;
    }
    else record t { form_error = none }

-- Enter in the input, or a click on the button, both of which wait for the call that runs.
unfoldable pub press_join : JoinForm → JoinForm
unfolding handle_join_room
press_join t = if t.is_submitting_join then t else handle_join_room t

abbrev pub error_of : ActionResult → Option Text → Option Text
error_of success old = old
error_of (failure message) old = some message

-- The `then` and the `finally` of a call.
abbrev pub join_settled : ActionResult → JoinForm → ℕ → JoinForm
join_settled r t zero = t
join_settled r t (suc n) = record t {
  form_error = error_of r t.form_error;
  is_submitting_join = false;
  running = n;
}

pub data JoinEvent : Type 0 where
  typed : Text → JoinEvent
  join_pressed dismissed : JoinEvent
  settled : ActionResult → JoinEvent

unfoldable pub step : JoinEvent → JoinForm → JoinForm
unfolding press_join
step (typed text) t = record t { join_code = text }
step join_pressed t = press_join t
step dismissed t = record t { form_error = none }
step (settled r) t = join_settled r t t.running

unfoldable pub run : List JoinEvent → JoinForm → JoinForm
unfolding step
run [] t = t
run (e ∷ es) t = run es (step e t)
