-- ===== src/EditTimer.antt =====
-- Editing the round's timer in the settings tab:
-- bsg-frontend/apps/extension/customComponents/RoomDisplays/SettingsDisplay.tsx. The effect that
-- copies the stored duration runs with the change that it waits for.
pub mod Range
use bsg.Prelude.{
  ℕ, Bool, true, false, ◌&&◌, ◌||◌, not, Option, none, some, List, [], ◌∷◌, if◌then◌else◌, Text,
  codes, ◌++◌, nonempty, or_else,
}
use bsg.Prelude.Int.{ℤ, pos, negsuc, ltb_ℤ}
use bsg.Prelude.Decimal.{natural_text}
use bsg.Progress.{eq_ℤ}

abbrev pub min_duration : ℤ
min_duration = pos 5

abbrev pub max_duration : ℤ
max_duration = pos 120

-- The tab's state, beside the parts of the room store that it reads, and the request that runs, with
-- the duration that it was sent with. `sent` has the bodies of all requests.
pub record EditTimer : Type 0 where
  pub room_id : Option Text
  pub is_admin : Bool
  pub is_round_started : Bool
  pub round_duration : Option ℤ
  pub value : ℤ
  pub saving : Bool
  pub error : Option Text
  pub saved : Bool
  pub running : Option ℤ
  pub sent : List ℤ

-- The tab's first render.
unfoldable pub open_settings : Option Text → Bool → Bool → Option ℤ → EditTimer
open_settings room_id is_admin is_round_started round_duration = record {
  room_id = room_id;
  is_admin = is_admin;
  is_round_started = is_round_started;
  round_duration = round_duration;
  value = or_else round_duration (pos 30);
  saving = false;
  error = none;
  saved = false;
  running = none;
  sent = [];
}

-- Math.max(MIN_DURATION, Math.min(MAX_DURATION, n))
unfoldable pub clamp : ℤ → ℤ
clamp n =
    if ltb_ℤ max_duration n then max_duration else if ltb_ℤ n min_duration then min_duration else n

unfoldable pub change : ℤ → EditTimer → EditTimer
unfolding clamp
change next t = record t { value = clamp next; saved = false; error = none }

-- The effect on the stored duration and on the tab being shown.
abbrev pub copy_stored : Option ℤ → EditTimer → EditTimer
copy_stored none t = t
copy_stored (some d) t = record t { value = d }

abbrev pub is_stored : ℤ → Option ℤ → Bool
is_stored d none = false
is_stored d (some e) = eq_ℤ d e

abbrev pub dirty : EditTimer → Bool
dirty t = not (is_stored t.value t.round_duration)

-- setRoundDuration(d), with the effect where that is another duration.
unfoldable pub store_duration : ℤ → EditTimer → EditTimer
store_duration d t =
    if is_stored d t.round_duration then t else record t { round_duration = some d; value = d }

-- onSave, to its request.
abbrev pub on_save : EditTimer → EditTimer
on_save t = elim t.room_id [
  | none ↦ record t { error = some (codes "Not in a room.") }
  | some room ↦
      if nonempty room
      then record t { saving = true; error = none; running = some t.value; sent = t.value ∷ t.sent }
      else record t { error = some (codes "Not in a room.") }
]

-- The sliders and the button are there for the admin, before the round starts.
abbrev pub can_edit : EditTimer → Bool
can_edit t = t.is_admin && not t.is_round_started

unfoldable pub press_save : EditTimer → EditTimer
press_save t = if can_edit t && not (t.saving || not (dirty t)) then on_save t else t

-- The reply: rejected with a message, refused with a status and a message, or accepted with the
-- duration that the body names, where `none` is none.
pub data SaveReply : Type 0 where
  rejected : Option Text → SaveReply
  refused : ℕ → Option Text → SaveReply
  accepted : Option ℤ → SaveReply

abbrev pub message_or : Option Text → Text → Text
message_or none d = d
message_or (some m) d = if nonempty m then m else d

-- What the reply to a request with a duration does.
abbrev pub read_reply : SaveReply → ℤ → EditTimer → EditTimer
unfolding store_duration
read_reply (rejected m) sent t = record t {
  error = some (message_or m (codes "Failed to update timer."));
}
read_reply (refused status m) sent t = record t {
  error = some (message_or m (codes "Failed to update timer: " ++ natural_text status));
}
read_reply (accepted d) sent t = record (store_duration (or_else d sent) t) { saved = true }

abbrev pub settle : SaveReply → Option ℤ → EditTimer → EditTimer
unfolding store_duration
settle r none t = t
settle r (some sent) t = record (read_reply r sent t) { saving = false; running = none }

pub data TimerEvent : Type 0 where
  moved : ℤ → TimerEvent
  shown save_pressed message_expired : TimerEvent
  -- isRoundStarted of the store
  round_started : Bool → TimerEvent
  replied : SaveReply → TimerEvent
  -- Another part of the panel stores a duration.
  stored : ℤ → TimerEvent

unfoldable pub step : TimerEvent → EditTimer → EditTimer
unfolding change store_duration press_save
step (moved n) t = if can_edit t then change n t else t
step shown t = copy_stored t.round_duration t
step save_pressed t = press_save t
step (round_started b) t = record t { is_round_started = b }
step message_expired t = record t { saved = false }
step (replied r) t = settle r t.running t
step (stored d) t = store_duration d t

unfoldable pub run : List TimerEvent → EditTimer → EditTimer
unfolding step
run [] t = t
run (e ∷ es) t = run es (step e t)
