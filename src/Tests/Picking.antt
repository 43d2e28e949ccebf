-- ===== src/Tests/Picking.antt =====
-- Tests of the problem picker and of the toolbar:
-- bsg-frontend/apps/extension/hooks/useProblemPicker.ts and
-- bsg-frontend/apps/extension/customComponents/Toolbar.
use bsg.Prelude.{◌≤◌, true, some, List, [], ◌∷◌, ◌≡◌, refl, Text, codes, All, length, mem_text}
use bsg.Prelude.Int.{pos, ◌+ℤ◌}
use bsg.Navigation.{problem_url, parse_problem_slug}
use bsg.Wizard.{random_code}
use bsg.Picker.{
  PickerState, picker_init, ProblemListEntry, Chosen, handle_create_room, select_problems,
  problem_ids,
}
use bsg.Picker.Sent.{act, loaded, select, opened, Offers, handle_create_room_sent}
use bsg.Picker.Sent
use bsg.Progress.{
  RoundDetails, segment_state, solved_slugs, solved, sync, step_problem, next, delta, disabled,
}
use bsg.Progress.Steps.{step_problem-in_round}
use bsg.Tests.{sum, lru}

abbrev catalogue : List ProblemListEntry
catalogue =
    record { id = some (pos 4); name = codes "Two Sum"; slug = sum }
    ∷ record { id = some (pos 9); name = codes "LRU Cache"; slug = lru }
    ∷ []

abbrev picked : PickerState
picked = act (select (codes "LRU Cache" ∷ codes "Nim" ∷ [])) (act (loaded catalogue) picker_init)

abbrev lru_alone : Chosen
lru_alone = record { code = codes "AAAAA"; duration = 30; problem_ids = pos 9 ∷ [] }

handle_create_room_sent_example :
    (1 ≤ length lru_alone.problem_ids)
    × (length lru_alone.problem_ids ≤ 10)
    × All (Offers picked.problems) lru_alone.problem_ids
unfolding handle_create_room problem_ids act select_problems random_code
handle_create_room_sent_example =
    handle_create_room_sent (λ _. 0) lru_alone
      (Sent.after (select (codes "LRU Cache" ∷ codes "Nim" ∷ []))
        (Sent.after (loaded catalogue) opened))
      refl

abbrev details : RoundDetails
details = record {
  problems =
      record { id = pos 4; name = codes "Two Sum"; slug = sum; difficulty = codes "easy" }
      ∷ record { id = pos 9; name = codes "LRU Cache"; slug = lru; difficulty = codes "medium" }
      ∷ [];
  round_start_time = codes "0";
  solved_problems = (codes "u1", record { problem_id = pos 9; timestamp = codes "1" } ∷ []) ∷ [];
}

lru_solved :
    segment_state (solved_slugs (some (codes "u1")) (some details)) (some lru) [] lru ≡ solved
unfolding segment_state solved_slugs
lru_solved = refl

step_problem-in_round_example :
    (slug : Text) × (mem_text slug (sum ∷ lru ∷ []) ≡ true)
    × (step_problem
          (sum ∷ lru ∷ [])
          (sync (some (codes "https://leetcode.com/problems/sum/")) (sum ∷ lru ∷ []))
          (delta next)
        ≡ problem_url slug)
unfolding disabled sync parse_problem_slug ◌+ℤ◌
step_problem-in_round_example =
    step_problem-in_round next (some (codes "https://leetcode.com/problems/sum/")) sum (lru ∷ [])
      refl
