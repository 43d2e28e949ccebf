-- ===== src/Progress.antt =====
-- Where the user stands in the round: the segments of
-- bsg-frontend/apps/extension/customComponents/Toolbar/ProblemProgress.tsx, over the data of
-- bsg-frontend/apps/extension/hooks/useStatistics.ts, and the step buttons of
-- bsg-frontend/apps/extension/customComponents/Toolbar/Toolbar.tsx.
pub mod Segments
pub mod Steps
use bsg.Prelude.{
  ℕ, zero, suc, Bool, true, false, ◌||◌, ◌==◌, Option, none, some, List, [], ◌∷◌, if◌then◌else◌,
  Text, codes, text_eq, option_eq, mem_text, nonempty, length, get_elem?, or_else,
}
use bsg.Prelude.Int.{ℤ, pos, negsuc, ◌+ℤ◌}
use bsg.Navigation.{parse_problem_slug, problem_url}

pub record RoundProblem : Type 0 where
  pub id : ℤ
  pub name : Text
  pub slug : Text
  pub difficulty : Text

pub record SolvedProblemInfo : Type 0 where
  pub problem_id : ℤ
  pub timestamp : Text

-- `solved_problems` is the map from a user's id to what the user solved, which has distinct keys.
pub record RoundDetails : Type 0 where
  pub round_start_time : Text
  pub problems : List RoundProblem
  pub solved_problems : List (Text × List SolvedProblemInfo)

abbrev pub eq_ℤ : ℤ → ℤ → Bool
eq_ℤ (pos m) (pos n) = m == n
eq_ℤ (negsuc m) (negsuc n) = m == n
eq_ℤ _ _ = false

abbrev pub details_problems : Option RoundDetails → List RoundProblem
details_problems none = []
details_problems (some d) = d.problems

abbrev slugs : List RoundProblem → List Text
slugs [] = []
slugs (p ∷ ps) = if nonempty p.slug then p.slug ∷ slugs ps else slugs ps

abbrev unless_empty : List Text → List Text → List Text
unless_empty [] store = store
unless_empty (p ∷ ps) store = p ∷ ps

-- The server's problems, or the store's where it knows none.
unfoldable pub round_problems : Option RoundDetails → List Text → List Text
round_problems details store = unless_empty (slugs (details_problems details)) store

-- slugById.get(id): of the problems with one id, the last counts.
abbrev pub slug_by_id : ℤ → List RoundProblem → Option Text
slug_by_id id [] = none
slug_by_id id (p ∷ ps) = elim (slug_by_id id ps) [
  | some s ↦ some s
  | none ↦ if eq_ℤ p.id id then some p.slug else none
]

abbrev pub add_slug : Option Text → List Text → List Text
add_slug none rest = rest
add_slug (some s) rest = if nonempty s then s ∷ rest else rest

abbrev pub slugs_of : List RoundProblem → List SolvedProblemInfo → List Text
slugs_of problems [] = []
slugs_of problems (i ∷ is) =
    let rest = slugs_of problems is in add_slug (slug_by_id i.problem_id problems) rest

abbrev pub solved_of : Text → List (Text × List SolvedProblemInfo) → List SolvedProblemInfo
solved_of user [] = []
solved_of user ((u, is) ∷ m) = if text_eq u user then is else solved_of user m

-- (userId && roundDetails?.solvedProblems?.[userId]) || []
abbrev pub own_solved : Option Text → Option RoundDetails → List SolvedProblemInfo
own_solved none details = []
own_solved (some []) details = []
own_solved (some (c ∷ u)) none = []
own_solved (some (c ∷ u)) (some d) = solved_of (c ∷ u) d.solved_problems

unfoldable pub solved_slugs : Option Text → Option RoundDetails → List Text
solved_slugs user details = slugs_of (details_problems details) (own_solved user details)

pub data SegmentState : Type 0 where
  solved active touched untouched : SegmentState

-- `solved_ones`, `curr_slug` and `touched_ones` are what the hooks of the component hold.
unfoldable pub segment_state : List Text → Option Text → List Text → Text → SegmentState
segment_state solved_ones curr_slug touched_ones slug =
    if mem_text slug solved_ones
    then solved
    else if option_eq curr_slug (some slug)
    then active
    else if mem_text slug touched_ones
    then touched
    else untouched

-- problems.indexOf(slug)
abbrev pub next_index : ℤ → ℤ
next_index (pos n) = pos (suc n)
next_index (negsuc n) = negsuc n

abbrev pub index_of : Text → List Text → ℤ
index_of slug [] = negsuc 0
index_of slug (p ∷ ps) =
    let rest = index_of slug ps in if text_eq p slug then pos 0 else next_index rest

abbrev pub index_of_slug : Option Text → List Text → ℤ
index_of_slug none problems = negsuc 0
index_of_slug (some slug) problems = if nonempty slug then index_of slug problems else negsuc 0

-- The index that the toolbar keeps for the tab's address; -1 is off the round.
unfoldable pub sync : Option Text → List Text → ℤ
sync none problems = negsuc 0
sync (some url) problems =
    if nonempty url then index_of_slug (parse_problem_slug url) problems else negsuc 0

pub data Button : Type 0 where
  previous next : Button

abbrev pub delta : Button → ℤ
delta previous = negsuc 0
delta next = pos 1

-- -2 is "not loaded yet".
unfoldable pub disabled : Button → List Text → ℤ → Bool
disabled previous problems curr = eq_ℤ curr (negsuc 1) || eq_ℤ curr (pos 0)
disabled next problems curr = eq_ℤ curr (negsuc 1) || eq_ℤ curr (pos (length problems) +ℤ negsuc 0)

abbrev pub new_index : ℤ → ℤ → ℤ
new_index curr d = if eq_ℤ curr (negsuc 0) then pos 0 else curr +ℤ d

abbrev pub element_at : List Text → ℤ → Option Text
element_at problems (pos n) = get_elem? problems n
element_at problems (negsuc n) = none

-- The address that stepProblem opens.
unfoldable pub step_problem : List Text → ℤ → ℤ → Text
step_problem problems curr d =
    problem_url (or_else (element_at problems (new_index curr d)) (codes "undefined"))
