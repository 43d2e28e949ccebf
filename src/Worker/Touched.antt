-- ===== src/Worker/Touched.antt =====
-- The problems that the user typed code in, which the worker keeps in `chrome.storage.session`:
-- `markProblemTouched` and `resetTouchedProblems` of bsg-frontend/extension/background.js. The chain
-- of promises runs the requests one by one, in their order; a storage call may reject.
pub mod Sets
pub mod Replays
use bsg.Prelude.{
  ℕ, ◌+◌, Bool, true, false, Option, none, some, List, [], ◌∷◌, ◌++◌, if◌then◌else◌, Text, or_else,
  option_eq, mem_text,
}

pub record SessionStorage : Type 0 where
  pub touched_slugs : Option (List Text)
  pub touched_slugs_round : Option Text
  -- the writes so far, each of which tells the panel to render anew
  pub writes : ℕ

-- What becomes of the storage calls of one request.
pub data Fate : Type 0 where
  works get_rejects set_rejects : Fate

abbrev pub touched : SessionStorage → List Text
touched s = or_else s.touched_slugs []

abbrev pub put : Fate → (SessionStorage → SessionStorage) → SessionStorage → SessionStorage
put works f s = let t = f s in record t { writes = t.writes + 1 }
put fate f s = s

abbrev add_touched : Fate → Text → SessionStorage → SessionStorage
add_touched get_rejects slug s = s
add_touched fate slug s =
    if mem_text slug (touched s)
    then s
    else put fate (λ t. record t { touched_slugs = some (touched s ++ slug ∷ []) }) s

unfoldable pub mark_problem_touched : Fate → Text → SessionStorage → SessionStorage
mark_problem_touched fate [] s = s
mark_problem_touched fate (c ∷ slug) s = add_touched fate (c ∷ slug) s

unfoldable pub reset_touched_problems : Fate → Text → SessionStorage → SessionStorage
reset_touched_problems get_rejects key s = s
reset_touched_problems fate key s =
    if option_eq s.touched_slugs_round (some key)
    then s
    else put fate (λ t. record t { touched_slugs_round = some key; touched_slugs = some [] }) s

pub data TouchRequest : Type 0 where
  reset : Text → TouchRequest
  touch : Text → TouchRequest

-- The listener's two branches, PROBLEM_PROGRESS_RESET and PROBLEM_TOUCHED.
unfoldable pub handle : Fate → TouchRequest → SessionStorage → SessionStorage
unfolding mark_problem_touched reset_touched_problems
handle fate (reset key) s = reset_touched_problems fate key s
handle fate (touch slug) s = mark_problem_touched fate slug s

unfoldable pub handle_all : List (Fate × TouchRequest) → SessionStorage → SessionStorage
handle_all [] s = s
handle_all ((fate, r) ∷ rs) s = handle_all rs (handle fate r s)
