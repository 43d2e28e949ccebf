-- ===== src/Wizard/Filters.antt =====
-- The lists behind the filter form, and what it shows of them: the loaders, `activeDifficulties`
-- and `topicCounts` of bsg-frontend/apps/extension/hooks/useRoomChoice.ts.
use bsg.Prelude.{
  ℕ, zero, suc, ◌+◌, ◌<◌, Bool, true, false, Option, none, some, List, [], ◌∷◌, ◌++◌, map, ◌≡◌,
  refl, ap, arith, if◌then◌else◌, Text, codes, join, split_on, mem_text, Bool-cases, inl, inr,
}
use mathlib.Core.Path.{fun_ext}
use bsg.Prelude.Int.{pos, Number, finite, num_add}
use bsg.Prelude.Json.{Json, str, get_opt, to_number}
use bsg.Requests.{Reply, ok_body, data_items, fetch_with_retry}
use bsg.Wizard.{FormState}

pub record DifficultyCounts : Type 0 where
  pub total : Number
  pub easy : Number
  pub medium : Number
  pub hard : Number

pub record Lists : Type 0 where
  pub topics : List Text
  pub topic_stats : List (Text × DifficultyCounts)
  pub companies : List Text

abbrev text_field : Text → Json → Text
text_field k v = as_text_or_empty (get_opt v k)
  where
    as_text_or_empty : Json → Text
    as_text_or_empty (str s) = s
    as_text_or_empty w = []

-- The statistics of one tag; the server's tags are distinct.
abbrev tag_stat : Json → Text × DifficultyCounts
tag_stat v = (
  text_field (codes "tag") v,
  record {
    total = to_number (get_opt v (codes "totalCount"));
    easy = to_number (get_opt v (codes "easyCount"));
    medium = to_number (get_opt v (codes "mediumCount"));
    hard = to_number (get_opt v (codes "hardCount"));
  },
)

abbrev store_topics : Option Json → Lists → Lists
store_topics none s = record s { topics = []; topic_stats = [] }
store_topics (some payload) s = record s {
  topics = map (text_field (codes "tag")) (data_items payload);
  topic_stats = map tag_stat (data_items payload);
}

-- A reply that is not ok, and one whose body cannot be read, leave no topics.
unfoldable pub load_topics : (ℕ → Reply) → Lists → Option Lists
load_topics replies s = elim (fetch_with_retry replies) [
  | none ↦ none
  | some settled ↦ some (store_topics (ok_body settled.reply) s)
]

abbrev store_companies : Option Json → Lists → Lists
store_companies none s = record s { companies = [] }
store_companies (some payload) s = record s {
  companies = map (text_field (codes "company")) (data_items payload);
}

unfoldable pub load_companies : (ℕ → Reply) → Lists → Option Lists
load_companies replies s = elim (fetch_with_retry replies) [
  | none ↦ none
  | some settled ↦ some (store_companies (ok_body settled.reply) s)
]

-- `n > 0 ? name : null`, filtered
abbrev level_name : ℕ → Text → List Text
level_name zero name = []
level_name (suc n) name = name ∷ []

unfoldable pub active_difficulties : FormState → Text
active_difficulties s =
    if s.any_difficulty
    then []
    else join (codes ",") (
        level_name s.number_of_easy_problems (codes "easy")
        ++ (level_name s.number_of_medium_problems (codes "medium")
            ++ level_name s.number_of_hard_problems (codes "hard")))

abbrev add_if : Bool → Number → Number → Number
add_if true n count = num_add count n
add_if false n count = count

-- One topic's count, for the list of active difficulties.
abbrev count_for : List Text → DifficultyCounts → Number
count_for [] stat = stat.total
count_for (a ∷ as') stat = add_if (mem_text (codes "hard") (a ∷ as')) stat.hard (
    add_if (mem_text (codes "medium") (a ∷ as')) stat.medium
      (add_if (mem_text (codes "easy") (a ∷ as')) stat.easy (finite (pos 0))))

abbrev active_list : Text → List Text
active_list [] = []
active_list (c ∷ s) = split_on b',' (c ∷ s)

unfoldable pub topic_counts : Text → List (Text × DifficultyCounts) → List (Text × Number)
topic_counts active stats = map (λ p. (p.0, count_for (active_list active) p.1)) stats

abbrev pub positive : ℕ → Bool
positive zero = false
positive (suc n) = true

-- The sum over the difficulties that are asked for, by the numbers alone.
abbrev pub asked_count : ℕ → ℕ → ℕ → DifficultyCounts → Number
asked_count e m h stat =
    add_if (positive h) stat.hard
      (add_if (positive m) stat.medium (add_if (positive e) stat.easy (finite (pos 0))))

abbrev pub shown_count : FormState → DifficultyCounts → Number
shown_count s stat =
    if s.any_difficulty
    then stat.total
    else asked_count s.number_of_easy_problems s.number_of_medium_problems s.number_of_hard_problems
        stat

count_for_levels :
    (e m h : ℕ) (stat : DifficultyCounts)
    → 0 < e + m + h
    → count_for
        (active_list (
          join (codes ",") (
            level_name e (codes "easy")
            ++ (level_name m (codes "medium") ++ level_name h (codes "hard")))))
        stat
      ≡ asked_count e m h stat
count_for_levels zero zero zero stat p = absurd (omega arith)
count_for_levels zero zero (suc h) stat p = refl
count_for_levels zero (suc m) zero stat p = refl
count_for_levels zero (suc m) (suc h) stat p = refl
count_for_levels (suc e) zero zero stat p = refl
count_for_levels (suc e) zero (suc h) stat p = refl
count_for_levels (suc e) (suc m) zero stat p = refl
count_for_levels (suc e) (suc m) (suc h) stat p = refl

-- While at least one problem is asked for, each topic shows the sum of its problems of exactly the
-- difficulties that are asked for, and all of them in the mode for any difficulty.
topic_counts_lem :
    (s : FormState) (stats : List (Text × DifficultyCounts))
    → 0 < s.number_of_easy_problems + s.number_of_medium_problems + s.number_of_hard_problems
    → topic_counts (active_difficulties s) stats ≡ map (λ p. (p.0, shown_count s p.1)) stats
unfolding topic_counts active_difficulties
topic_counts_lem s stats p = ap (λ f. map f stats) (fun_ext (λ t. ap (λ c. (t.0, c)) (count t.1)))
  where
    count :
        (stat : DifficultyCounts)
        → count_for (active_list (active_difficulties s)) stat ≡ shown_count s stat
    count stat = elim (Bool-cases s.any_difficulty) [
      | inl any ↦ simp any
      | inr each ↦ simp each (
          count_for_levels s.number_of_easy_problems s.number_of_medium_problems
            s.number_of_hard_problems stat p)
    ]
