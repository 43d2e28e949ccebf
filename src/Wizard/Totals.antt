-- ===== src/Wizard/Totals.antt =====
-- How many problems the form of bsg-frontend/apps/extension/hooks/useRoomChoice.ts asks for, over the
-- courses of the user's actions.
use bsg.Prelude.{
  ℕ, ◌+◌, ◌≤◌, Bool, List, ◌≡◌, refl, arith, if◌then◌else◌, Text, Bool-cases, inl, inr,
}
use bsg.Wizard.{
  Level, easy, medium, hard, FormState, form_init, decrement, increment, decrement_any,
  increment_any, requested_total, reset_filters, sync_recently_asked, RoomSettings, room_settings,
  ActionResult, handle_create_room, create_settled,
}

pub record IsValid (s : FormState) : Type 0 where
  pub sum :
      s.total ≡ s.number_of_easy_problems + s.number_of_medium_problems + s.number_of_hard_problems
  pub at_least : 1 ≤ s.total
  pub at_most : s.total ≤ 10
  pub any_at_least : 1 ≤ s.any_difficulty_count
  pub any_at_most : s.any_difficulty_count ≤ 10

pub data FormAction : Type 0 where
  inc dec : Level → FormAction
  any_inc any_dec reset sync create : FormAction
  any_box blind_box neet_box recent_box paid_box : Bool → FormAction
  topics companies : List Text → FormAction
  minutes : ℕ → FormAction
  settled : ActionResult → FormAction

unfoldable pub act : FormAction → FormState → FormState
act (inc d) s = increment d s
act (dec d) s = decrement d s
act any_inc s = increment_any s
act any_dec s = decrement_any s
act reset s = reset_filters s
act sync s = sync_recently_asked s
act create s = (handle_create_room (λ _. 0) s).0
act (any_box b) s = record s { any_difficulty = b }
act (blind_box b) s = record s { blind75 = b }
act (neet_box b) s = record s { neetcode150 = b }
act (recent_box b) s = record s { recently_asked = b }
act (paid_box b) s = record s { exclude_paid = b }
act (topics ts) s = record s { selected_topics = ts }
act (companies cs) s = record s { selected_companies = cs }
act (minutes n) s = record s { duration = n }
act (settled r) s = create_settled r s

-- The states of the form that a user can reach.
pub data Reached : FormState → Type 0 where
  opened : Reached form_init
  after : (a : FormAction) {s : FormState} → Reached s → Reached (act a s)

increment-IsValid : (d : Level) (s : FormState) → IsValid s → IsValid (increment d s)
unfolding increment
increment-IsValid easy s h = ground arith
increment-IsValid medium s h = ground arith
increment-IsValid hard s h = ground arith

decrement-IsValid : (d : Level) (s : FormState) → IsValid s → IsValid (decrement d s)
unfolding decrement
decrement-IsValid easy s h = ground arith
decrement-IsValid medium s h = ground arith
decrement-IsValid hard s h = ground arith

act-IsValid : (a : FormAction) (s : FormState) → IsValid s → IsValid (act a s)
unfolding act increment_any decrement_any reset_filters sync_recently_asked handle_create_room
    create_settled
act-IsValid (inc d) s h = increment-IsValid d s h
act-IsValid (dec d) s h = decrement-IsValid d s h
act-IsValid any_inc s h = omega arith
act-IsValid any_dec s h = omega arith
act-IsValid reset s h = omega arith
act-IsValid sync s h = ground arith
act-IsValid (settled r) s h = ground arith
act-IsValid _ s h = omega arith

-- Whatever the user does, the shown total is the sum of the three counts, and both it and the count
-- for any difficulty stay between 1 and 10.
Reached-IsValid : {s : FormState} → Reached s → IsValid s
Reached-IsValid opened = omega arith
Reached-IsValid (after a {s} r) = act-IsValid a s (Reached-IsValid r)

abbrev pub sent_total : RoomSettings → ℕ
sent_total r = r.easy + r.medium + r.hard + r.any_difficulty_count

-- What is sent asks for exactly the number of problems that the form compares with the pool, in one
-- of the two modes alone, and in every state that a user can reach it is between 1 and 10.
pub room_settings-requested_total :
    {s : FormState}
    → Reached s
    → (sent_total (room_settings s) ≡ requested_total s)
      × (1 ≤ requested_total s)
      × (requested_total s ≤ 10)
      × ((room_settings s).any_difficulty_count
          ≡ (if s.any_difficulty then requested_total s else 0))
unfolding room_settings requested_total
room_settings-requested_total {s} r =
    let h : IsValid s = Reached-IsValid r in
    elim (Bool-cases s.any_difficulty) [
      | inl any ↦ simp any (omega arith, omega arith, omega arith, refl)
      | inr each ↦ simp each (omega arith, omega arith, omega arith, refl)
    ]
