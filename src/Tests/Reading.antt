-- ===== src/Tests/Reading.antt =====
-- Tests of the statistics tab and the settings tab:
-- bsg-frontend/apps/extension/customComponents/RoomDisplays.
use bsg.Prelude.{
  All, true, false, ℕ, ◌*◌, ◌/◌, ◌≤◌, Option, none, some, List, [], ◌∷◌, ◌≡◌, refl, Text, codes,
  length, arith, is_some,
}
use bsg.Prelude.Int.{ℤ, pos, pos_part, ◌-ℤ◌, ◌+ℤ◌}
use bsg.Board.{Participant}
use bsg.Progress.{SolvedProblemInfo, RoundDetails}
use bsg.Breakdown.{solved_breakdown, total_text, round_breakdown}
use bsg.Breakdown.Sums.{latest, solved_breakdown-total}
use bsg.Breakdown.Order.{swap, solved_breakdown-Reordered}
use bsg.EditTimer
use bsg.EditTimer.{EditTimer, TimerEvent, open_settings, moved, save_pressed, replied, accepted}
use bsg.EditTimer.Range.{InRange, run-sent-InRange}

-- An instant is written with a stroke for each minute.
abbrev strokes : Text → ℤ
strokes s = pos (60_000 * length s)

abbrev first_solve : SolvedProblemInfo
first_solve = record { problem_id = pos 9; timestamp = codes "|||" }

abbrev second_solve : SolvedProblemInfo
second_solve = record { problem_id = pos 4; timestamp = codes "|||||||" }

abbrev played : RoundDetails
played = record {
  problems =
      record { id = pos 4; name = codes "Two Sum"; slug = codes "sum"; difficulty = codes "EASY" }
      ∷ record { id = pos 9; name = codes "LRU"; slug = codes "lru"; difficulty = codes "medium" }
      ∷ [];
  round_start_time = codes "|";
  solved_problems = (codes "u1", second_solve ∷ first_solve ∷ []) ∷ [];
}

abbrev ada : Participant
ada = record { id = codes "u1"; username = codes "Ada"; avatar_url = none; score = pos 7 }

solved_breakdown-total_example :
    (solved_breakdown strokes played (second_solve ∷ first_solve ∷ [])).total_time_str
    ≡ total_text
        (latest strokes (strokes (codes "|||||||")) (first_solve ∷ []) -ℤ strokes (codes "|"))
solved_breakdown-total_example =
    solved_breakdown-total strokes played second_solve (first_solve ∷ [])

solved_breakdown-Reordered_example :
    solved_breakdown strokes played (second_solve ∷ first_solve ∷ [])
    ≡ solved_breakdown strokes played (first_solve ∷ second_solve ∷ [])
solved_breakdown-Reordered_example =
    solved_breakdown-Reordered strokes played (swap second_solve first_solve [] (λ e. ground arith))

-- Six minutes in all, of which four went to the easy problem.
played_total : (round_breakdown strokes (some ada) (some played)).total_time_str ≡ codes "6m 0s"
unfolding round_breakdown bsg.Prelude.Int.◌-ℤ◌ bsg.Prelude.Int.◌+ℤ◌ bsg.Prelude.Decimal.natural_text
played_total = refl

played_easy :
    (round_breakdown strokes (some ada) (some played)).time_per_difficulty.easy_value ≡ 240
unfolding round_breakdown bsg.Prelude.Int.◌-ℤ◌ bsg.Prelude.Int.◌+ℤ◌
played_easy = refl

-- A duration is saved, and while the request runs the slider goes on.
abbrev edits : List TimerEvent
edits = moved (pos 200) ∷ save_pressed ∷ moved (pos 60) ∷ []

run-sent-InRange_example :
    All InRange
      (EditTimer.run edits (open_settings (some (codes "r1")) true false (some (pos 30)))).sent
run-sent-InRange_example = run-sent-InRange (some (codes "r1")) true false (some (pos 30)) edits

sent_clamped :
    (EditTimer.run edits (open_settings (some (codes "r1")) true false (some (pos 30)))).sent
    ≡ pos 120 ∷ []
unfolding EditTimer.run open_settings
sent_clamped = refl

-- The reply puts the slider back to what was sent.
moved_back :
    (EditTimer.run
      (moved (pos 90) ∷ save_pressed ∷ moved (pos 60) ∷ replied (accepted none) ∷ [])
      (open_settings (some (codes "r1")) true false (some (pos 30)))).value
    ≡ pos 90
unfolding EditTimer.run open_settings
moved_back = refl
