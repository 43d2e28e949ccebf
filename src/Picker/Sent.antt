-- ===== src/Picker/Sent.antt =====
-- What the picker sends: bsg-frontend/apps/extension/hooks/useProblemPicker.ts.
use bsg.Prelude.{
  ℕ, ◌≤◌, false, Option, none, some, List, [], ◌∷◌, ◌≡◌, ◌⊎◌, inl, inr, refl, arith, Text, All,
  length, length-take-le, Option-cases, Bool-cases, text_eq,
}
use bsg.Prelude.Int.{ℤ}
use bsg.Wizard.{ActionResult, success, failure}
use bsg.Picker.{
  ProblemListEntry, PickerState, picker_init, max_chosen_problems, named, id_of, problem_ids,
  select_problems, Chosen, submit, handle_create_room, create_settled, reset_selection,
}

pub data PickerAction : Type 0 where
  loaded : List ProblemListEntry → PickerAction
  select : List Text → PickerAction
  minutes : ℕ → PickerAction
  create reset : PickerAction
  settle : ActionResult → PickerAction

unfoldable pub act : PickerAction → PickerState → PickerState
act (loaded es) s = record s { problems = es; is_loading_problems = false }
act (select names) s = select_problems names s
act (minutes n) s = record s { duration = n }
act create s = (handle_create_room (λ _. 0) s).0
act reset s = reset_selection s
act (settle r) s = create_settled r s

-- The states of the picker that a user can reach.
pub data Reached : PickerState → Type 0 where
  opened : Reached picker_init
  after : (a : PickerAction) {s : PickerState} → Reached s → Reached (act a s)

submit-selected_problems :
    (draw : ℕ → ℕ) (ids : List ℤ) (s : PickerState)
    → (submit draw ids s).0.selected_problems ≡ s.selected_problems
submit-selected_problems draw [] s = refl
submit-selected_problems draw (id ∷ ids) s = refl

act-selected :
    (a : PickerAction) (s : PickerState)
    → length s.selected_problems ≤ 10
    → length (act a s).selected_problems ≤ 10
unfolding act select_problems handle_create_room reset_selection create_settled
act-selected (loaded es) s h = h
act-selected (select names) s h = length-take-le max_chosen_problems names
act-selected (minutes n) s h = h
act-selected create s h =
    rw
      (submit-selected_problems (λ _. 0) (problem_ids s.problems s.selected_problems)
        (record s { form_error = none }))
      h
act-selected reset s h = omega arith
act-selected (settle success) s h = h
act-selected (settle (failure m)) s h = h

Reached-selected : {s : PickerState} → Reached s → length s.selected_problems ≤ 10
Reached-selected opened = omega arith
Reached-selected (after a {s} r) = act-selected a s (Reached-selected r)

-- The catalogue has an entry with this id.
abbrev pub Offers : List ProblemListEntry → ℤ → Type 0
Offers [] id = ⊥
Offers (e ∷ es) id = (e.id ≡ some id) ⊎ Offers es id

named-Offers :
    (name : Text) (es : List ProblemListEntry) (id : ℤ)
    → id_of (named name es) ≡ some id
    → Offers es id
named-Offers name [] id h = cc
named-Offers name (e ∷ es) id h = elim (Option-cases (named name es)) [
  | inr (found, k) ↦ inr (named-Offers name es id (rw k (rw k at h)))
  | inl k ↦ elim (Bool-cases (text_eq e.name name)) [
    | inl same ↦ inl (rw (k, same) at h)
    | inr other ↦ let h' : ◌≡◌ {A = Option ℤ} none (some id) = rw (k, other) at h in cc
  ]
]

problem_ids-Offers :
    (es : List ProblemListEntry) (names : List Text) → All (Offers es) (problem_ids es names)
unfolding problem_ids
problem_ids-Offers es [] = tt
problem_ids-Offers es (name ∷ names) = elim (Option-cases (id_of (named name es))) [
  | inl e ↦ rw e (problem_ids-Offers es names)
  | inr (id, e) ↦ rw e (named-Offers name es id e, problem_ids-Offers es names)
]

length-problem_ids :
    (es : List ProblemListEntry) (names : List Text) → length (problem_ids es names) ≤ length names
unfolding problem_ids
length-problem_ids es [] = omega arith
length-problem_ids es (name ∷ names) =
    let ih = length-problem_ids es names in
    elim (Option-cases (id_of (named name es))) [
      | inl e ↦ rw e (omega arith)
      | inr (id, e) ↦ rw e (omega arith)
    ]

submit_sent :
    (draw : ℕ → ℕ) (ids : List ℤ) (s : PickerState) (c : Chosen)
    → (submit draw ids s).1 ≡ some c
    → (c.problem_ids ≡ ids) × (1 ≤ length ids)
submit_sent draw [] s c h = cc
submit_sent draw (id ∷ ids) s c h = (ground arith, omega arith)

-- Whatever the user picked, a creation that is sent names at least one and at most ten problems,
-- and only problems of the catalogue.
pub handle_create_room_sent :
    (draw : ℕ → ℕ) {s : PickerState} (c : Chosen)
    → Reached s
    → (handle_create_room draw s).1 ≡ some c
    → (1 ≤ length c.problem_ids)
      × (length c.problem_ids ≤ 10)
      × All (Offers s.problems) c.problem_ids
unfolding handle_create_room
handle_create_room_sent draw {s} c r h =
    let (e, some_ids) =
      submit_sent draw (problem_ids s.problems s.selected_problems) (record s { form_error = none })
        c h in
    let few = length-problem_ids s.problems s.selected_problems in
    let selected = Reached-selected r in
    rw e (some_ids, omega arith, problem_ids-Offers s.problems s.selected_problems)
