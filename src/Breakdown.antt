-- ===== src/Breakdown.antt =====
-- What the statistics tab shows of a player's round:
-- bsg-frontend/apps/extension/customComponents/RoomDisplays/StatisticsDisplay.tsx. `time` is
-- `new Date(s).getTime()`: the server's timestamps are dates. Letters are those of ASCII.
pub mod Sorting
pub mod Sums
pub mod Rows
pub mod Order
use bsg.Prelude.{
  ℕ, zero, suc, ◌+◌, ◌-◌, ◌/◌, ◌%◌, min, Bool, true, false, ◌&&◌, ◌||◌, ◌==◌, leb, ltb, Option,
  none, some, List, [], ◌∷◌, ◌++◌, map, if◌then◌else◌, Text, codes, text_eq, nonempty, length,
  get_elem?, take, text_or, or_else,
}
use bsg.Prelude.Int.{ℤ, pos, negsuc, pos_part, ◌+ℤ◌, ◌-ℤ◌, ltb_ℤ}
use bsg.Prelude.Decimal.{natural_text}
use bsg.Wizard.{Level, easy, medium, hard}
use bsg.Progress.{RoundProblem, SolvedProblemInfo, RoundDetails, eq_ℤ, solved_of, details_problems}
use bsg.Board.{Participant}

abbrev pub dash : Text
dash = codes "—"

-- [...solved].sort((a, b) => time(a) - time(b)), which is stable.
pub insert_by_time :
    (Text → ℤ) → SolvedProblemInfo → List SolvedProblemInfo → List SolvedProblemInfo
insert_by_time time s [] = s ∷ []
insert_by_time time s (t ∷ ts) =
    if ltb_ℤ (time t.timestamp) (time s.timestamp) then t ∷ insert_by_time time s ts else s ∷ t ∷ ts

unfoldable pub sorted_solved : (Text → ℤ) → List SolvedProblemInfo → List SolvedProblemInfo
unfolding insert_by_time
sorted_solved time [] = []
sorted_solved time (s ∷ ss) = insert_by_time time s (sorted_solved time ss)

-- Math.max(0, Math.floor((t - lastTime) / 1000))
unfoldable pub duration_sec : ℤ → ℤ → ℕ
duration_sec last_time t = pos_part (t -ℤ last_time) / 1000

abbrev pub minutes_text : ℕ → Text
minutes_text sec = natural_text (sec / 60) ++ (codes "m " ++ (natural_text (sec % 60) ++ codes "s"))

abbrev upper : ℕ → ℕ
upper c = if leb b'a' c && leb c b'z' then c - 32 else c

abbrev lower : ℕ → ℕ
lower c = if leb b'A' c && leb c b'Z' then c + 32 else c

-- d.charAt(0).toUpperCase() + d.slice(1).toLowerCase()
abbrev pub capitalized : Text → Text
capitalized [] = []
capitalized (c ∷ d) = upper c ∷ map lower d

-- The key of the counts by difficulty that a problem's difficulty stands for, if it is one.
unfoldable pub diff_key : Text → Option Level
diff_key d =
    if text_eq (capitalized d) (codes "Easy")
    then some easy
    else if text_eq (capitalized d) (codes "Medium")
    then some medium
    else if text_eq (capitalized d) (codes "Hard")
    then some hard
    else none

-- diffMap.get(id): of the problems with one id, the last counts.
abbrev pub difficulty_by_id : ℤ → List RoundProblem → Option Text
difficulty_by_id id [] = none
difficulty_by_id id (p ∷ ps) = elim (difficulty_by_id id ps) [
  | some d ↦ some d
  | none ↦ if eq_ℤ p.id id then some p.difficulty else none
]

unfoldable pub key_of : Option Text → Option Level
unfolding diff_key
key_of none = none
key_of (some d) = if nonempty d then diff_key d else none

pub record ByLevel : Type 0 where
  pub easy_value : ℕ
  pub medium_value : ℕ
  pub hard_value : ℕ

abbrev pub no_values : ByLevel
no_values = record { easy_value = 0; medium_value = 0; hard_value = 0 }

unfoldable pub add_to : Option Level → ℕ → ByLevel → ByLevel
add_to none n v = v
add_to (some easy) n v = record v { easy_value = v.easy_value + n }
add_to (some medium) n v = record v { medium_value = v.medium_value + n }
add_to (some hard) n v = record v { hard_value = v.hard_value + n }

abbrev pub value_at : Level → ByLevel → ℕ
value_at easy v = v.easy_value
value_at medium v = v.medium_value
value_at hard v = v.hard_value

abbrev pub has_id : ℤ → List ℤ → Bool
has_id id [] = false
has_id id (j ∷ js) = eq_ℤ j id || has_id id js

-- ids.add(id)
abbrev pub add_id : ℤ → List ℤ → List ℤ
add_id id ids = if has_id id ids then ids else ids ++ id ∷ []

-- The variables of the loop over the sorted solves.
pub record Tally : Type 0 where
  pub ids : List ℤ
  pub time_diff : ByLevel
  pub total_ms : ℤ
  pub last_time : ℤ

unfoldable pub tally_one : (Text → ℤ) → List RoundProblem → SolvedProblemInfo → Tally → Tally
unfolding duration_sec add_to key_of
tally_one time problems s a =
    let t = time s.timestamp in
    record {
      ids = add_id s.problem_id a.ids;
      time_diff =
          add_to (key_of (difficulty_by_id s.problem_id problems)) (duration_sec a.last_time t)
            a.time_diff;
      total_ms = a.total_ms +ℤ (t -ℤ a.last_time);
      last_time = t;
    }

unfoldable pub tally : (Text → ℤ) → List RoundProblem → List SolvedProblemInfo → Tally → Tally
unfolding tally_one
tally time problems [] a = a
tally time problems (s ∷ ss) a = tally time problems ss (tally_one time problems s a)

pub record RoundBreakdown : Type 0 where
  pub solved_ids : List ℤ
  pub total_time_str : Text
  pub time_per_difficulty : ByLevel

abbrev pub total_text : ℤ → Text
total_text ms = if ltb_ℤ (pos 0) ms then minutes_text (pos_part ms / 1000) else dash

abbrev pub no_breakdown : RoundBreakdown
no_breakdown = record { solved_ids = []; total_time_str = dash; time_per_difficulty = no_values }

abbrev pub from_start : ℤ → Tally
from_start start = record { ids = []; time_diff = no_values; total_ms = pos 0; last_time = start }

abbrev pub breakdown_of : Tally → RoundBreakdown
breakdown_of a = record {
  solved_ids = a.ids;
  total_time_str = total_text a.total_ms;
  time_per_difficulty = a.time_diff;
}

-- What the first memo computes for the player's solves, behind its early returns.
unfoldable pub solved_breakdown :
    (Text → ℤ) → RoundDetails → List SolvedProblemInfo → RoundBreakdown
unfolding tally sorted_solved
solved_breakdown time d [] = no_breakdown
solved_breakdown time d (s ∷ ss) =
    breakdown_of
      (tally time d.problems (sorted_solved time (s ∷ ss)) (from_start (time d.round_start_time)))

-- The player that the tab is about, where the chosen place may be out of range.
unfoldable pub selected_player : ℕ → List Participant → Option Participant
selected_player selected_idx ps = get_elem? ps (min selected_idx (length ps - 1))

unfoldable pub round_breakdown :
    (Text → ℤ) → Option Participant → Option RoundDetails → RoundBreakdown
unfolding solved_breakdown
round_breakdown time none details = no_breakdown
round_breakdown time (some p) none = no_breakdown
round_breakdown time (some p) (some d) =
    if nonempty d.round_start_time
    then solved_breakdown time d (solved_of p.id d.solved_problems)
    else no_breakdown

-- map.set(id, text)
abbrev pub set_time : ℤ → Text → List (ℤ × Text) → List (ℤ × Text)
set_time id text [] = (id, text) ∷ []
set_time id text ((j, old) ∷ m) = if eq_ℤ j id then (j, text) ∷ m else (j, old) ∷ set_time id text m

abbrev pub time_of : ℤ → List (ℤ × Text) → Option Text
time_of id [] = none
time_of id ((j, text) ∷ m) = if eq_ℤ j id then some text else time_of id m

unfoldable pub solve_times :
    (Text → ℤ) → List SolvedProblemInfo → ℤ → List (ℤ × Text) → List (ℤ × Text)
unfolding duration_sec
solve_times time [] last_time m = m
solve_times time (s ∷ ss) last_time m =
    let t = time s.timestamp in
    solve_times time ss t (set_time s.problem_id (minutes_text (duration_sec last_time t)) m)

-- problemTimeMap
unfoldable pub problem_time_map :
    (Text → ℤ) → Option Participant → Option RoundDetails → List (ℤ × Text)
unfolding solve_times sorted_solved
problem_time_map time none details = []
problem_time_map time (some p) none = []
problem_time_map time (some p) (some d) =
    if nonempty d.round_start_time
    then solve_times time (sorted_solved time (solved_of p.id d.solved_problems))
        (time d.round_start_time) []
    else []

-- What a row of the problems shows as its time.
unfoldable pub row_time : List ℤ → List (ℤ × Text) → RoundProblem → Text
row_time solved_ids times p =
    if has_id p.id solved_ids then text_or (or_else (time_of p.id times) []) dash else dash

-- The totals and the solved ones of diffCounts.
unfoldable pub diff_totals : List RoundProblem → ByLevel → ByLevel
unfolding diff_key add_to
diff_totals [] v = v
diff_totals (p ∷ ps) v = diff_totals ps (add_to (diff_key p.difficulty) 1 v)

unfoldable pub diff_solved : List ℤ → List RoundProblem → ByLevel → ByLevel
unfolding diff_key add_to
diff_solved ids [] v = v
diff_solved ids (p ∷ ps) v =
    diff_solved ids ps (if has_id p.id ids then add_to (diff_key p.difficulty) 1 v else v)

pub record PieSlice : Type 0 where
  pub name : Level
  pub value : ℕ
  pub solved_count : ℕ

abbrev pub slice_onto : Level → ByLevel → ByLevel → List PieSlice → List PieSlice
slice_onto l times counts rest =
    if ltb 0 (value_at l times)
    then record { name = l; value = value_at l times; solved_count = value_at l counts } ∷ rest
    else rest

unfoldable pub pie_data : ByLevel → ByLevel → List PieSlice
pie_data times counts =
    slice_onto easy times counts (slice_onto medium times counts (slice_onto hard times counts []))

-- The labels below the bars.
unfoldable pub score_label : Text → Text
score_label username = if ltb 8 (length username) then take 7 username ++ codes "…" else username
