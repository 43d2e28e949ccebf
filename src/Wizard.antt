-- ===== src/Wizard.antt =====
-- The filter form of the create-room page: bsg-frontend/apps/extension/hooks/useRoomChoice.ts, with
-- the buttons of bsg-frontend/apps/extension/customComponents/CreateRoom/problem-count-section.tsx.
pub mod Totals
pub mod Filters
pub mod Query
pub mod FilterTab
use bsg.Prelude.{
  ℕ, ◌+◌, ◌-◌, Bool, true, false, ◌&&◌, ◌||◌, Option, none, some, List, [], ◌∷◌, if◌then◌else◌,
  Text, leb, ltb, min, max, get_elem?, codes, ◌++◌,
}

pub data Level : Type 0 where
  easy medium hard : Level

-- The state of the form. The lists of all topics and companies are beside it, in `Filters`.
pub record FormState : Type 0 where
  pub number_of_easy_problems : ℕ
  pub number_of_medium_problems : ℕ
  pub number_of_hard_problems : ℕ
  pub any_difficulty : Bool
  pub any_difficulty_count : ℕ
  pub duration : ℕ
  pub total : ℕ
  pub selected_topics : List Text
  pub selected_companies : List Text
  pub blind75 : Bool
  pub neetcode150 : Bool
  pub recently_asked : Bool
  pub exclude_paid : Bool
  pub form_error : Option Text
  pub is_submitting_create : Bool

abbrev pub form_init : FormState
form_init = record {
  number_of_easy_problems = 1;
  number_of_medium_problems = 0;
  number_of_hard_problems = 0;
  any_difficulty = false;
  any_difficulty_count = 1;
  duration = 30;
  total = 1;
  selected_topics = [];
  selected_companies = [];
  blind75 = false;
  neetcode150 = false;
  recently_asked = false;
  exclude_paid = true;
  form_error = none;
  is_submitting_create = false;
}

abbrev pub min_number_of_problems : ℕ
min_number_of_problems = 0

abbrev pub max_number_of_problems : ℕ
max_number_of_problems = 10

abbrev pub level_count : Level → FormState → ℕ
level_count easy s = s.number_of_easy_problems
level_count medium s = s.number_of_medium_problems
level_count hard s = s.number_of_hard_problems

-- The setters that the form passes to `increment` and `decrement`.
abbrev pub set_level : Level → ℕ → FormState → FormState
set_level easy n s = record s { number_of_easy_problems = n }
set_level medium n s = record s { number_of_medium_problems = n }
set_level hard n s = record s { number_of_hard_problems = n }

unfoldable pub decrement : Level → FormState → FormState
decrement d s =
    if leb s.total 1 || leb (level_count d s) min_number_of_problems
    then s
    else record (set_level d (level_count d s - 1) s) { total = s.total - 1 }

unfoldable pub increment : Level → FormState → FormState
increment d s =
    if leb max_number_of_problems s.total
    then s
    else record (set_level d (level_count d s + 1) s) { total = s.total + 1 }

-- The "Any Difficulty" buttons.
abbrev pub max_any_difficulty : ℕ
max_any_difficulty = 10

abbrev pub min_any_difficulty : ℕ
min_any_difficulty = 1

unfoldable pub decrement_any : FormState → FormState
decrement_any s = record s {
  any_difficulty_count = max min_any_difficulty (s.any_difficulty_count - 1);
}

unfoldable pub increment_any : FormState → FormState
increment_any s = record s {
  any_difficulty_count = min max_any_difficulty (s.any_difficulty_count + 1);
}

unfoldable pub requested_total : FormState → ℕ
requested_total s =
    if s.any_difficulty
    then s.any_difficulty_count
    else s.number_of_easy_problems + s.number_of_medium_problems + s.number_of_hard_problems

-- resetFilters: what is being submitted stays.
unfoldable pub reset_filters : FormState → FormState
reset_filters s = record form_init { is_submitting_create = s.is_submitting_create }

abbrev is_nil : List Text → Bool
is_nil [] = true
is_nil (c ∷ cs) = false

-- The effect that drops "recently asked" with the last company.
unfoldable pub sync_recently_asked : FormState → FormState
sync_recently_asked s =
    if is_nil s.selected_companies && s.recently_asked
    then record s { recently_asked = false }
    else s

-- What is sent to create a room.
pub record RoomSettings : Type 0 where
  pub easy : ℕ
  pub medium : ℕ
  pub hard : ℕ
  pub duration : ℕ
  pub tags : List Text
  pub companies : List Text
  pub blind75 : Bool
  pub neetcode150 : Bool
  pub recently_asked : Bool
  pub exclude_paid : Bool
  pub any_difficulty : Bool
  pub any_difficulty_count : ℕ

unfoldable pub room_settings : FormState → RoomSettings
room_settings s = record {
  easy = if s.any_difficulty then 0 else s.number_of_easy_problems;
  medium = if s.any_difficulty then 0 else s.number_of_medium_problems;
  hard = if s.any_difficulty then 0 else s.number_of_hard_problems;
  duration = s.duration;
  tags = s.selected_topics;
  companies = s.selected_companies;
  blind75 = s.blind75;
  neetcode150 = s.neetcode150;
  recently_asked = s.recently_asked;
  exclude_paid = s.exclude_paid;
  any_difficulty = s.any_difficulty;
  any_difficulty_count = if s.any_difficulty then s.any_difficulty_count else 0;
}

-- What `props.onCreate` resolves to; an error has a message.
pub data ActionResult : Type 0 where
  success : ActionResult
  failure : Text → ActionResult

abbrev code_chars : Text
code_chars = codes "ABCDEFGHIJKLMNOPQRSTUVWXYZabcdefghijklmnopqrstuvwxyz0123456789"

-- chars.charAt(i): the empty text out of range
abbrev char_at : Text → ℕ → Text
char_at s i = elim (get_elem? s i) [ none ↦ [] | some c ↦ c ∷ [] ]

-- The code of five characters, from the five draws `Math.floor(Math.random() * chars.length)`.
unfoldable pub random_code : (ℕ → ℕ) → Text
random_code draw =
    char_at code_chars (draw 0)
    ++ (char_at code_chars (draw 1)
        ++ (char_at code_chars (draw 2)
            ++ (char_at code_chars (draw 3) ++ char_at code_chars (draw 4))))

-- handleCreateRoom with `props.onCreate` there: the form while the request runs, and what is sent.
unfoldable pub handle_create_room : (ℕ → ℕ) → FormState → FormState × Text × RoomSettings
handle_create_room draw s =
    (record s { form_error = none; is_submitting_create = true }, random_code draw, room_settings s)

-- Its `then` and `finally`.
unfoldable pub create_settled : ActionResult → FormState → FormState
create_settled success s = record s { is_submitting_create = false }
create_settled (failure message) s = record s {
  form_error = some message;
  is_submitting_create = false;
}
