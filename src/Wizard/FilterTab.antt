-- ===== src/Wizard/FilterTab.antt =====
-- The steps of the filter tab:
-- bsg-frontend/apps/extension/customComponents/CreateRoom/filter-problems-tab.tsx, over the form of
-- useRoomChoice.ts. What the tab hands to `createRoom` is the list of the sent settings.
pub mod Sent
use bsg.Prelude.{
  ℕ, ◌+◌, min, Bool, true, false, ◌&&◌, ◌||◌, not, ◌==◌, ltb, Option, none, some, List, [], ◌∷◌,
  if◌then◌else◌,
}
use bsg.Wizard.{
  FormState, form_init, RoomSettings, room_settings, requested_total, handle_create_room,
}
use bsg.Wizard.Totals.{FormAction, create, reset, act}

-- SECTIONS.length - 1
abbrev pub last_step : ℕ
last_step = 4

pub record FilterTab : Type 0 where
  pub form : FormState
  pub current_step : ℕ
  pub first_step_touched : Bool
  pub available_count : Option ℕ
  pub is_loading_filter : Bool
  pub sent : List RoomSettings

abbrev pub new_tab : FilterTab
new_tab = record {
  form = form_init;
  current_step = 0;
  first_step_touched = false;
  available_count = none;
  is_loading_filter = false;
  sent = [];
}

abbrev pub show_create_label : FilterTab → Bool
show_create_label t =
    (t.current_step == 0 && not t.first_step_touched) || t.current_step == last_step

abbrev pub fewer_than : Option ℕ → ℕ → Bool
fewer_than none n = false
fewer_than (some count) n = ltb count n

-- notEnoughProblems
unfoldable pub not_enough_problems : FilterTab → Bool
unfolding requested_total
not_enough_problems t = fewer_than t.available_count (requested_total t.form)

-- Whether the button at the bottom right is disabled.
abbrev pub is_disabled : FilterTab → Bool
unfolding requested_total
is_disabled t =
    t.form.is_submitting_create
    || (t.is_loading_filter || (show_create_label t && not_enough_problems t))

-- handleCreateRoom, which hands the settings over.
abbrev pub hand_over : (ℕ → ℕ) → FilterTab → FilterTab
unfolding handle_create_room
hand_over draw t =
    let (form, code, settings) = handle_create_room draw t.form in
    record t { form = form; sent = settings ∷ t.sent }

unfoldable pub handle_primary_action : (ℕ → ℕ) → FilterTab → FilterTab
unfolding handle_create_room
handle_primary_action draw t =
    if show_create_label t
    then hand_over draw t
    else record t { current_step = min (t.current_step + 1) last_step }

-- A press of the button.
unfoldable pub press : (ℕ → ℕ) → FilterTab → FilterTab
unfolding handle_primary_action requested_total
press draw t = if is_disabled t then t else handle_primary_action draw t

abbrev pub touch_first_step : FilterTab → FilterTab
touch_first_step t = record t { first_step_touched = true }

-- handleReset
unfoldable pub handle_reset : FilterTab → FilterTab
unfolding act
handle_reset t = record t { form = act reset t.form; current_step = 0; first_step_touched = false }

-- onValueChange, with the index of the section, if it is one.
abbrev pub open_section : Option ℕ → FilterTab → FilterTab
open_section none t = t
open_section (some index) t = record t { current_step = index }

-- All but what the two buttons at the bottom do.
abbrev pub is_control : FormAction → Bool
is_control create = false
is_control reset = false
is_control _ = true

unfoldable pub control : FormAction → FilterTab → FilterTab
control a t = if is_control a then record t { form = act a t.form } else t

pub data TabEvent : Type 0 where
  pressed : (ℕ → ℕ) → TabEvent
  reset_pressed : TabEvent
  section_opened : Option ℕ → TabEvent
  -- A control of the section of the counts, which touches it, or any other, or a reply.
  counts_changed changed : FormAction → TabEvent
  -- isLoadingFilter and availableCount of the hook
  counted : Bool → Option ℕ → TabEvent

unfoldable pub step : TabEvent → FilterTab → FilterTab
unfolding press handle_reset control
step (pressed draw) t = press draw t
step reset_pressed t = handle_reset t
step (section_opened index) t = open_section index t
step (counts_changed a) t = control a (touch_first_step t)
step (changed a) t = control a t
step (counted loading count) t = record t { is_loading_filter = loading; available_count = count }

unfoldable pub run : List TabEvent → FilterTab → FilterTab
unfolding step
run [] t = t
run (e ∷ es) t = run es (step e t)
