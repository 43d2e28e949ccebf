-- ===== src/Stores/Counts.antt =====
-- The cache of problem counts: bsg-frontend/apps/extension/stores/useProblemCountStore.ts. The sort
-- is that of JavaScript on strings, by code units.
pub mod Keys
pub mod Order
use bsg.Prelude.{
  ℕ, Bool, true, false, Option, none, some, List, [], ◌∷◌, ◌++◌, if◌then◌else◌, Text, codes,
  text_eq, join, ltb, ◌==◌,
}

pub record CountFilters : Type 0 where
  pub difficulties : Text
  pub tags : List Text
  pub companies : List Text
  pub blind75 : Bool
  pub neetcode150 : Bool
  pub recently_asked : Bool
  pub exclude_paid : Bool

-- s <= t, by code units
abbrev pub text_le : Text → Text → Bool
text_le [] t = true
text_le (c ∷ s) [] = false
text_le (c ∷ s) (d ∷ t) = if c == d then text_le s t else ltb c d

abbrev pub insert_sorted : Text → List Text → List Text
insert_sorted s [] = s ∷ []
insert_sorted s (t ∷ ts) = if text_le s t then s ∷ t ∷ ts else t ∷ insert_sorted s ts

-- [...texts].sort()
abbrev pub sort : List Text → List Text
sort [] = []
sort (s ∷ ss) = insert_sorted s (sort ss)

abbrev flag : Bool → Text
flag true = codes "1"
flag false = codes "0"

unfoldable pub build_problem_count_key : CountFilters → Text
build_problem_count_key f = join (codes "|") (
    f.difficulties
    ∷ join (codes ",") (sort f.tags)
    ∷ join (codes ",") (sort f.companies)
    ∷ flag f.blind75
    ∷ flag f.neetcode150
    ∷ flag f.recently_asked
    ∷ flag f.exclude_paid
    ∷ [])

-- The record of counts: the newest entry for a key is the one that counts.
pub record CountState : Type 0 where
  pub counts : List (Text × ℕ)

abbrev find : Text → List (Text × ℕ) → Option ℕ
find key [] = none
find key ((k, n) ∷ m) = if text_eq k key then some n else find key m

unfoldable pub get_count : Text → CountState → Option ℕ
get_count key s = find key s.counts

unfoldable pub set_count : Text → ℕ → CountState → CountState
set_count key count s = record s { counts = (key, count) ∷ s.counts }
