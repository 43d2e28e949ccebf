-- ===== src/Picker.antt =====
-- The "Choose" tab of the create-room page, where problems are picked by hand:
-- bsg-frontend/apps/extension/hooks/useProblemPicker.ts. An abandoned load is not modelled.
pub mod Sent
use bsg.Prelude.{
  ℕ, Bool, true, false, Option, none, some, List, [], ◌∷◌, map, if◌then◌else◌, Text, codes, text_eq,
  take,
}
use bsg.Prelude.Int.{ℤ}
use bsg.Prelude.Json.{Json, num, str, get_opt}
use bsg.Requests.{Reply, ok_body, data_items, fetch_with_retry}
use bsg.Wizard.{ActionResult, success, failure, random_code}

abbrev pub max_chosen_problems : ℕ
max_chosen_problems = 10

-- An entry of the catalogue; its id is `none` where it is not a number.
pub record ProblemListEntry : Type 0 where
  pub id : Option ℤ
  pub name : Text
  pub slug : Text

pub record PickerState : Type 0 where
  pub problems : List ProblemListEntry
  pub is_loading_problems : Bool
  pub selected_problems : List Text
  pub duration : ℕ
  pub form_error : Option Text
  pub is_submitting_create : Bool

abbrev pub picker_init : PickerState
picker_init = record {
  problems = [];
  is_loading_problems = true;
  selected_problems = [];
  duration = 30;
  form_error = none;
  is_submitting_create = false;
}

abbrev as_id : Json → Option ℤ
as_id (num n) = some n
as_id v = none

abbrev as_name : Json → Text
as_name (str s) = s
as_name v = []

abbrev entry : Json → ProblemListEntry
entry v = record {
  id = as_id (get_opt v (codes "id"));
  name = as_name (get_opt v (codes "name"));
  slug = as_name (get_opt v (codes "slug"));
}

abbrev entries : Option Json → List ProblemListEntry
entries none = []
entries (some payload) = map entry (data_items payload)

-- A refused or unreadable reply leaves no problems; in each case the loading is over.
unfoldable pub load_problems : (ℕ → Reply) → PickerState → Option PickerState
load_problems replies s = elim (fetch_with_retry replies) [
  | none ↦ none
  | some settled ↦
      some (record s { problems = entries (ok_body settled.reply); is_loading_problems = false })
]

-- idsByName.get(name): of the entries with one name, the last counts.
abbrev pub named : Text → List ProblemListEntry → Option ProblemListEntry
named name [] = none
named name (e ∷ es) = elim (named name es) [
  | some found ↦ some found
  | none ↦ if text_eq e.name name then some e else none
]

abbrev pub id_of : Option ProblemListEntry → Option ℤ
id_of none = none
id_of (some e) = e.id

abbrev pub cons_some : Option ℤ → List ℤ → List ℤ
cons_some none ids = ids
cons_some (some id) ids = id ∷ ids

-- The names mapped to their ids, without those that have none.
unfoldable pub problem_ids : List ProblemListEntry → List Text → List ℤ
problem_ids problems [] = []
problem_ids problems (name ∷ names) =
    cons_some (id_of (named name problems)) (problem_ids problems names)

unfoldable pub select_problems : List Text → PickerState → PickerState
select_problems names s = record s { selected_problems = take max_chosen_problems names }

-- What `props.onCreate` is called with.
pub record Chosen : Type 0 where
  pub code : Text
  pub duration : ℕ
  pub problem_ids : List ℤ

abbrev pub submit : (ℕ → ℕ) → List ℤ → PickerState → PickerState × Option Chosen
submit draw [] s = (s, none)
submit draw (id ∷ ids) s = (
  record s { is_submitting_create = true },
  some (record { code = random_code draw; duration = s.duration; problem_ids = id ∷ ids }),
)

-- handleCreateRoom with `props.onCreate` there; `none` means that it is not called.
unfoldable pub handle_create_room : (ℕ → ℕ) → PickerState → PickerState × Option Chosen
unfolding problem_ids
handle_create_room draw s =
    submit draw (problem_ids s.problems s.selected_problems) (record s { form_error = none })

unfoldable pub create_settled : ActionResult → PickerState → PickerState
create_settled success s = record s { is_submitting_create = false }
create_settled (failure message) s = record s {
  form_error = some message;
  is_submitting_create = false;
}

unfoldable pub reset_selection : PickerState → PickerState
reset_selection s = record s { selected_problems = []; duration = 30; form_error = none }
