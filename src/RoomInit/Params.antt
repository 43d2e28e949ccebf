-- ===== src/RoomInit/Params.antt =====
-- The body of the request for a round: `roundParams` of `createRoom` in
-- bsg-frontend/apps/extension/hooks/useRoomInit.ts, over the options that the two tabs of the
-- create-room page hand over.
use bsg.Prelude.{ℕ, zero, suc, Bool, false, Option, none, some, List, [], Text, or_else}
use bsg.Prelude.Int.{ℤ}
use bsg.Wizard.{RoomSettings}

-- The fields that are read of `options`; `none` is undefined.
pub record CreateOptions : Type 0 where
  pub duration : Option ℕ
  pub easy : Option ℕ
  pub medium : Option ℕ
  pub hard : Option ℕ
  pub tags : Option (List Text)
  pub companies : Option (List Text)
  pub blind75 : Option Bool
  pub neetcode150 : Option Bool
  pub recently_asked : Option Bool
  pub exclude_paid : Option Bool
  pub any_difficulty : Option Bool
  pub any_difficulty_count : Option ℕ
  pub problem_ids : Option (List ℤ)

pub record RoundParams : Type 0 where
  pub duration : ℕ
  pub num_easy_problems : ℕ
  pub num_medium_problems : ℕ
  pub num_hard_problems : ℕ
  pub tags : List Text
  pub companies : List Text
  pub blind75 : Bool
  pub neetcode150 : Bool
  pub recently_asked : Bool
  pub exclude_paid : Bool
  pub any_difficulty : Bool
  pub num_any_difficulty_problems : ℕ
  pub problem_ids : List ℤ

-- n || d
abbrev pub count_or : Option ℕ → ℕ → ℕ
count_or none d = d
count_or (some zero) d = d
count_or (some (suc n)) d = suc n

unfoldable pub round_params : CreateOptions → RoundParams
round_params o = record {
  duration = count_or o.duration 30;
  num_easy_problems = count_or o.easy 0;
  num_medium_problems = count_or o.medium 0;
  num_hard_problems = count_or o.hard 0;
  tags = or_else o.tags [];
  companies = or_else o.companies [];
  blind75 = or_else o.blind75 false;
  neetcode150 = or_else o.neetcode150 false;
  recently_asked = or_else o.recently_asked false;
  exclude_paid = or_else o.exclude_paid false;
  any_difficulty = or_else o.any_difficulty false;
  num_any_difficulty_problems = count_or o.any_difficulty_count 0;
  problem_ids = or_else o.problem_ids [];
}

-- What the filter tab hands over.
abbrev pub from_filters : RoomSettings → CreateOptions
from_filters r = record {
  duration = some r.duration;
  easy = some r.easy;
  medium = some r.medium;
  hard = some r.hard;
  tags = some r.tags;
  companies = some r.companies;
  blind75 = some r.blind75;
  neetcode150 = some r.neetcode150;
  recently_asked = some r.recently_asked;
  exclude_paid = some r.exclude_paid;
  any_difficulty = some r.any_difficulty;
  any_difficulty_count = some r.any_difficulty_count;
  problem_ids = none;
}

-- What the tab of chosen problems hands over.
abbrev pub from_choice : ℕ → List ℤ → CreateOptions
from_choice duration ids = record {
  duration = some duration;
  easy = none;
  medium = none;
  hard = none;
  tags = none;
  companies = none;
  blind75 = none;
  neetcode150 = none;
  recently_asked = none;
  exclude_paid = none;
  any_difficulty = none;
  any_difficulty_count = none;
  problem_ids = some ids;
}
