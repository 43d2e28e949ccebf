-- ===== src/JoinForm/Single.antt =====
-- Joining runs once at a time: bsg-frontend/apps/extension/hooks/useJoinRoom.ts.
use bsg.Prelude.{
  ℕ, zero, suc, Bool, true, false, List, [], ◌∷◌, ◌≡◌, refl, sym, ◌∙◌, inl, inr, trim, nonempty,
  All, Bool-cases, arith, if◌then◌else◌,
}
use bsg.RoomInit.Flows.{ActionResult}
use bsg.JoinForm.{
  JoinForm, empty_form, handle_join_room, press_join, join_settled, JoinEvent, typed, join_pressed,
  dismissed, settled, step, run,
}

-- The form shows that it joins exactly while a call runs, of which there is one at most, and every
-- code that was sent is not empty.
record IsSingle (t : JoinForm) : Type 0 where
  shown : t.running ≡ (if t.is_submitting_join then 1 else 0)
  sent_full : All (λ code. nonempty code ≡ true) t.sent

handle_join_room-IsSingle :
    (t : JoinForm) → t.is_submitting_join ≡ false → IsSingle t → IsSingle (handle_join_room t)
unfolding handle_join_room
handle_join_room-IsSingle t e h =
    let idle : t.running ≡ 0 = ground arith in
    elim (Bool-cases (nonempty (trim t.join_code))) [
      | inl full ↦ rw full record { shown = rw idle refl; sent_full = (full, h.sent_full) }
      | inr blank ↦ rw blank record { shown = h.shown; sent_full = h.sent_full }
    ]

press_by :
    (b : Bool) (t : JoinForm)
    → t.is_submitting_join ≡ b
    → IsSingle t
    → IsSingle (if b then t else handle_join_room t)
press_by true t e h = h
press_by false t e h = handle_join_room-IsSingle t e h

press_join-IsSingle : (t : JoinForm) → IsSingle t → IsSingle (press_join t)
unfolding press_join
press_join-IsSingle t h = press_by t.is_submitting_join t refl h

last_one : (b : Bool) (n : ℕ) → suc n ≡ (if b then 1 else 0) → n ≡ 0
last_one true n e = omega arith
last_one false n e = omega arith

join_settled-IsSingle :
    (r : ActionResult) (n : ℕ) (t : JoinForm)
    → t.running ≡ n
    → IsSingle t
    → IsSingle (join_settled r t n)
join_settled-IsSingle r zero t e h = h
join_settled-IsSingle r (suc n) t e h = record {
  shown = last_one t.is_submitting_join n (sym e ∙ h.shown);
  sent_full = h.sent_full;
}

step-IsSingle : (e : JoinEvent) (t : JoinForm) → IsSingle t → IsSingle (step e t)
unfolding step
step-IsSingle (typed text) t h = record { shown = h.shown; sent_full = h.sent_full }
step-IsSingle join_pressed t h = press_join-IsSingle t h
step-IsSingle dismissed t h = record { shown = h.shown; sent_full = h.sent_full }
step-IsSingle (settled r) t h = join_settled-IsSingle r t.running t refl h

run_from : (es : List JoinEvent) (t : JoinForm) → IsSingle t → IsSingle (run es t)
unfolding run
run_from [] t h = h
run_from (e ∷ es) t h = run_from es (step e t) (step-IsSingle e t h)

-- Over every course of what the user does and of what the calls come to, the form shows that it
-- joins exactly while a call runs, of which there is one at most, and no call has an empty code.
run-IsSingle : (es : List JoinEvent) → IsSingle (run es empty_form)
run-IsSingle es = run_from es empty_form record { shown = refl; sent_full = tt }
