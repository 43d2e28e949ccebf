-- ===== src/Wizard/FilterTab/Sent.antt =====
-- What the filter tab sends:
-- bsg-frontend/apps/extension/customComponents/CreateRoom/filter-problems-tab.tsx.
use bsg.Prelude.{
  ℕ, zero, suc, ◌+◌, ◌≤◌, min, Bool, true, false, ◌&&◌, ◌||◌, not, ◌==◌, none, some, List, [], ◌∷◌,
  ◌≡◌, refl, ◌∙◌, ap, ◌⊎◌, inl, inr, arith, Bool-cases, ==_iff,
}
use bsg.Wizard.{FormState, RoomSettings, room_settings, requested_total, handle_create_room}
use bsg.Wizard.Totals.{
  FormAction, create, reset, act, Reached, opened, after, room_settings-requested_total,
}
use bsg.RoomInit.Params.{RoundParams, round_params, from_filters}
use bsg.Wizard.FilterTab.{
  FilterTab, new_tab, show_create_label, not_enough_problems, is_disabled, handle_primary_action,
  press, handle_reset, is_control, control, TabEvent, pressed, reset_pressed, section_opened,
  counts_changed, changed, counted, step, run,
}

abbrev pub problems_in : RoundParams → ℕ
problems_in b =
    b.num_easy_problems + b.num_medium_problems + b.num_hard_problems
    + b.num_any_difficulty_problems

-- The number of problems that the body of the request for the round asks for.
abbrev pub asked : RoomSettings → ℕ
unfolding round_params
asked r = problems_in (round_params (from_filters r))

asked-requested_total : (s : FormState) → asked (room_settings s) ≡ requested_total s
unfolding round_params room_settings requested_total
asked-requested_total s = ground arith

press-Reached : (draw : ℕ → ℕ) (t : FilterTab) → Reached t.form → Reached (press draw t).form
unfolding press handle_primary_action handle_create_room act
press-Reached draw t r = elim (Bool-cases (is_disabled t)) [
  | inl e ↦ rw e r
  | inr e ↦ elim (Bool-cases (show_create_label t)) [
    | inl shown ↦ let sent : Reached (act create t.form) = after create r in rw (e, shown) sent
    | inr hidden ↦ rw (e, hidden) r
  ]
]

control-Reached : (a : FormAction) (t : FilterTab) → Reached t.form → Reached (control a t).form
unfolding control
control-Reached a t r = elim (Bool-cases (is_control a)) [
  | inl e ↦ rw e (after a r)
  | inr e ↦ rw e r
]

step-Reached : (e : TabEvent) (t : FilterTab) → Reached t.form → Reached (step e t).form
unfolding step handle_reset
step-Reached (pressed draw) t r = press-Reached draw t r
step-Reached reset_pressed t r = after reset r
step-Reached (section_opened none) t r = r
step-Reached (section_opened (some index)) t r = r
step-Reached (counts_changed a) t r = control-Reached a record t { first_step_touched = true } r
step-Reached (changed a) t r = control-Reached a t r
step-Reached (counted loading count) t r = r

run-Reached : (es : List TabEvent) (t : FilterTab) → Reached t.form → Reached (run es t).form
unfolding run
run-Reached [] t r = r
run-Reached (e ∷ es) t r = run-Reached es (step e t) (step-Reached e t r)

-- The button that reads Create is enabled only if the form compares well with the pool, and nothing
-- is being submitted.
enabled_parts :
    (submitting loading shown short : Bool)
    → (submitting || (loading || (shown && short))) ≡ false
    → shown ≡ true
    → (short ≡ false) × (submitting ≡ false)
enabled_parts submitting loading shown short e s = ground arith

-- A press of the button sends nothing, or else what is sent in the end asks for exactly the number of
-- problems that the form shows, which is between 1 and 10 and no more than the filters are known to
-- leave, and nothing is being submitted already.
pub press_branches :
    (es : List TabEvent) (draw : ℕ → ℕ)
    → ((press draw (run es new_tab)).sent ≡ (run es new_tab).sent)
      ⊎ (((press draw (run es new_tab)).sent
            ≡ room_settings (run es new_tab).form ∷ (run es new_tab).sent)
          × (asked (room_settings (run es new_tab).form) ≡ requested_total (run es new_tab).form)
          × (1 ≤ requested_total (run es new_tab).form)
          × (requested_total (run es new_tab).form ≤ 10)
          × (not_enough_problems (run es new_tab) ≡ false)
          × ((run es new_tab).form.is_submitting_create ≡ false))
unfolding press handle_primary_action handle_create_room
press_branches es draw = go (run es new_tab) (run-Reached es new_tab opened)
  where
    go :
        (t : FilterTab)
        → Reached t.form
        → ((press draw t).sent ≡ t.sent)
          ⊎ (((press draw t).sent ≡ room_settings t.form ∷ t.sent)
              × (asked (room_settings t.form) ≡ requested_total t.form)
              × (1 ≤ requested_total t.form)
              × (requested_total t.form ≤ 10)
              × (not_enough_problems t ≡ false)
              × (t.form.is_submitting_create ≡ false))
    go t r = elim (Bool-cases (is_disabled t)) [
      | inl e ↦ inl (rw e refl)
      | inr e ↦ elim (Bool-cases (show_create_label t)) [
        | inl shown ↦
            let (enough, free) =
              enabled_parts t.form.is_submitting_create t.is_loading_filter (show_create_label t)
                (not_enough_problems t) e shown in
            let (same, least, most, _) = room_settings-requested_total r in
            inr (rw (e, shown) refl, asked-requested_total t.form, least, most, enough, free)
        | inr hidden ↦ inl (rw (e, hidden) refl)
      ]
    ]

abbrev pub presses : (ℕ → ℕ) → ℕ → FilterTab → FilterTab
presses draw zero t = t
presses draw (suc n) t = presses draw n (press draw t)

label_hidden :
    (first touched last : Bool)
    → touched ≡ true
    → last ≡ false
    → ((first && not touched) || last) ≡ false
label_hidden first touched last t l = ground arith

label_shown : (early last : Bool) → last ≡ true → (early || last) ≡ true
label_shown early last l = ground arith

not_disabled :
    (submitting loading shown short : Bool)
    → submitting ≡ false
    → loading ≡ false
    → (shown ≡ false) ⊎ (short ≡ false)
    → (submitting || (loading || (shown && short))) ≡ false
not_disabled submitting loading shown short f r h = ground arith

not_last : (k n : ℕ) → k + suc n ≡ 4 → (k == 4) ≡ false
not_last k n s = ground arith

press_next :
    (draw : ℕ → ℕ) (n : ℕ) (t : FilterTab)
    → t.current_step + suc n ≡ 4
    → t.first_step_touched ≡ true
    → t.form.is_submitting_create ≡ false
    → t.is_loading_filter ≡ false
    → press draw t ≡ record t { current_step = suc t.current_step }
unfolding press handle_primary_action
press_next draw n t s touched free ready =
    let hidden : show_create_label t ≡ false =
      label_hidden (t.current_step == 0) t.first_step_touched (t.current_step == 4) touched
        (not_last t.current_step n s) in
    let enabled : is_disabled t ≡ false =
      not_disabled t.form.is_submitting_create t.is_loading_filter (show_create_label t)
        (not_enough_problems t) free ready (inl hidden) in
    let capped : min (t.current_step + 1) 4 ≡ suc t.current_step = omega arith in
    rw (enabled, hidden) (ap (λ k. record t { current_step = k }) capped)

press_last :
    (draw : ℕ → ℕ) (t : FilterTab)
    → t.current_step ≡ 4
    → t.form.is_submitting_create ≡ false
    → t.is_loading_filter ≡ false
    → not_enough_problems t ≡ false
    → (press draw t).sent ≡ room_settings t.form ∷ t.sent
unfolding press handle_primary_action handle_create_room
press_last draw t s free ready enough =
    let shown : show_create_label t ≡ true =
      label_shown (t.current_step == 0 && not t.first_step_touched) (t.current_step == 4)
        ((==_iff t.current_step 4).1 s) in
    let enabled : is_disabled t ≡ false =
      not_disabled t.form.is_submitting_create t.is_loading_filter (show_create_label t)
        (not_enough_problems t) free ready (inr enough) in
    rw (enabled, shown) refl

-- Once the first step was touched, and while nothing is submitted or counted and the filters leave
-- enough problems, the button walks through the steps that are left and then sends the settings, once.
pub presses_create :
    (draw : ℕ → ℕ) (n : ℕ) (t : FilterTab)
    → t.current_step + n ≡ 4
    → t.first_step_touched ≡ true
    → t.form.is_submitting_create ≡ false
    → t.is_loading_filter ≡ false
    → not_enough_problems t ≡ false
    → (presses draw (suc n) t).sent ≡ room_settings t.form ∷ t.sent
unfolding not_enough_problems
presses_create draw zero t s touched free ready enough =
    press_last draw t (omega arith) free ready enough
presses_create draw (suc n) t s touched free ready enough =
    ap (λ u. (presses draw (suc n) u).sent) (press_next draw n t s touched free ready)
    ∙ presses_create draw n record t { current_step = suc t.current_step } (omega arith) touched
        free ready enough
