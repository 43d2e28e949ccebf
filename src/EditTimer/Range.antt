-- ===== src/EditTimer/Range.antt =====
-- Which durations are sent:
-- bsg-frontend/apps/extension/customComponents/RoomDisplays/SettingsDisplay.tsx.
use bsg.Prelude.{
  Bool, true, ◌&&◌, ◌||◌, not, Option, none, some, List, [], ◌∷◌, ◌≡◌, refl, sym, ap, ◌⊎◌, inl, inr,
  arith, Bool-cases, Option-cases, All, Text, nonempty, or_else, ==_iff,
}
use bsg.Prelude.Int.{ℤ, pos, negsuc, ◌≤ℤ◌}
use bsg.Progress.{eq_ℤ}
use bsg.EditTimer.{
  EditTimer, open_settings, clamp, change, copy_stored, is_stored, dirty, store_duration, on_save,
  can_edit, press_save, SaveReply, rejected, refused, accepted, read_reply, settle, TimerEvent,
  moved, shown, save_pressed, round_started, message_expired, replied, stored, step, run,
}

abbrev pub InRange : ℤ → Type 0
InRange d = (pos 5 ≤ℤ d) × (d ≤ℤ pos 120)

clamp-InRange : (n : ℤ) → InRange (clamp n)
unfolding clamp
clamp-InRange n = ground arith

is_stored-some : (d : ℤ) (s : Option ℤ) → is_stored d s ≡ true → s ≡ some d
is_stored-some d none h = absurd cc
is_stored-some (pos m) (some (pos n)) h =
    let same : m ≡ n = (==_iff m n).0 h in ap (λ k. some (pos k)) (sym same)
is_stored-some (pos m) (some (negsuc n)) h = absurd cc
is_stored-some (negsuc m) (some (pos n)) h = absurd cc
is_stored-some (negsuc m) (some (negsuc n)) h =
    let same : m ≡ n = (==_iff m n).0 h in ap (λ k. some (negsuc k)) (sym same)

eq_ℤ_refl : (d : ℤ) → eq_ℤ d d ≡ true
eq_ℤ_refl (pos n) = (==_iff n n).1 refl
eq_ℤ_refl (negsuc n) = (==_iff n n).1 refl

-- The shown value is the stored one or can be sent, and all that was sent can be.
record IsSendable (t : EditTimer) : Type 0 where
  value : (t.round_duration ≡ some t.value) ⊎ InRange t.value
  all_sent : All InRange t.sent

store_duration-IsSendable : (d : ℤ) (t : EditTimer) → IsSendable t → IsSendable (store_duration d t)
unfolding store_duration
store_duration-IsSendable d t h = elim (Bool-cases (is_stored d t.round_duration)) [
  | inl e ↦ rw e h
  | inr e ↦ rw e record { value = inl refl; all_sent = h.all_sent }
]

unstored-InRange :
    (d : ℤ) (s : Option ℤ) → not (is_stored d s) ≡ true → (s ≡ some d) ⊎ InRange d → InRange d
unstored-InRange d s fresh (inr r) = r
unstored-InRange d s fresh (inl e) =
    let known : is_stored d s ≡ true = rw e (eq_ℤ_refl d) in absurd (ground arith)

on_save-IsSendable : (t : EditTimer) → InRange t.value → IsSendable t → IsSendable (on_save t)
on_save-IsSendable t r h = elim (Option-cases t.room_id) [
  | inl e ↦ rw e record { value = h.value; all_sent = h.all_sent }
  | inr (room, e) ↦ elim (Bool-cases (nonempty room)) [
    | inl full ↦ rw (e, full) record { value = h.value; all_sent = (r, h.all_sent) }
    | inr empty ↦ rw (e, empty) record { value = h.value; all_sent = h.all_sent }
  ]
]

pressable : (edits saving fresh : Bool) → (edits && not (saving || not fresh)) ≡ true → fresh ≡ true
pressable edits saving fresh h = ground arith

press_save-IsSendable : (t : EditTimer) → IsSendable t → IsSendable (press_save t)
unfolding press_save
press_save-IsSendable t h = elim (Bool-cases (can_edit t && not (t.saving || not (dirty t)))) [
  | inl e ↦
      let fresh = pressable (can_edit t) t.saving (dirty t) e in
      rw e (on_save-IsSendable t (unstored-InRange t.value t.round_duration fresh h.value) h)
  | inr e ↦ rw e h
]

read_reply-IsSendable :
    (r : SaveReply) (sent : ℤ) (t : EditTimer) → IsSendable t → IsSendable (read_reply r sent t)
unfolding read_reply
read_reply-IsSendable (rejected m) sent t h = record { value = h.value; all_sent = h.all_sent }
read_reply-IsSendable (refused status m) sent t h = record {
  value = h.value;
  all_sent = h.all_sent;
}
read_reply-IsSendable (accepted d) sent t h =
    let k = store_duration-IsSendable (or_else d sent) t h in
    record { value = k.value; all_sent = k.all_sent }

settle-IsSendable :
    (r : SaveReply) (running : Option ℤ) (t : EditTimer)
    → IsSendable t
    → IsSendable (settle r running t)
unfolding settle
settle-IsSendable r none t h = h
settle-IsSendable r (some sent) t h =
    let k = read_reply-IsSendable r sent t h in record { value = k.value; all_sent = k.all_sent }

copy_stored-IsSendable :
    (d : Option ℤ) (t : EditTimer)
    → t.round_duration ≡ d
    → IsSendable t
    → IsSendable (copy_stored d t)
copy_stored-IsSendable none t e h = h
copy_stored-IsSendable (some d) t e h = record { value = inl e; all_sent = h.all_sent }

step-IsSendable : (e : TimerEvent) (t : EditTimer) → IsSendable t → IsSendable (step e t)
unfolding step change
step-IsSendable (moved n) t h = elim (Bool-cases (can_edit t)) [
  | inl e ↦ rw e record { value = inr (clamp-InRange n); all_sent = h.all_sent }
  | inr e ↦ rw e h
]
step-IsSendable shown t h = copy_stored-IsSendable t.round_duration t refl h
step-IsSendable save_pressed t h = press_save-IsSendable t h
step-IsSendable (round_started b) t h = record { value = h.value; all_sent = h.all_sent }
step-IsSendable message_expired t h = record { value = h.value; all_sent = h.all_sent }
step-IsSendable (replied r) t h = settle-IsSendable r t.running t h
step-IsSendable (stored d) t h = store_duration-IsSendable d t h

run_from : (es : List TimerEvent) (t : EditTimer) → IsSendable t → IsSendable (run es t)
unfolding run
run_from [] t h = h
run_from (e ∷ es) t h = run_from es (step e t) (step-IsSendable e t h)

open_settings-IsSendable :
    (room_id : Option Text) (is_admin is_round_started : Bool) (d : Option ℤ)
    → IsSendable (open_settings room_id is_admin is_round_started d)
unfolding open_settings
open_settings-IsSendable room_id is_admin is_round_started none = record {
  value = inr (omega arith, omega arith);
  all_sent = tt;
}
open_settings-IsSendable room_id is_admin is_round_started (some d) = record {
  value = inl refl;
  all_sent = tt;
}

-- Whatever durations the server and the store tell, every duration that the settings tab sends to the
-- server is between 5 and 120 minutes, over every course of the user's actions and replies.
pub run-sent-InRange :
    (room_id : Option Text) (is_admin is_round_started : Bool) (d : Option ℤ) (es : List TimerEvent)
    → All InRange (run es (open_settings room_id is_admin is_round_started d)).sent
run-sent-InRange room_id is_admin is_round_started d es =
    (run_from es (open_settings room_id is_admin is_round_started d)
      (open_settings-IsSendable room_id is_admin is_round_started d)).all_sent
