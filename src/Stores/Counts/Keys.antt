-- ===== src/Stores/Counts/Keys.antt =====
-- The keys of the cache of problem counts: `buildProblemCountKey` of
-- bsg-frontend/apps/extension/stores/useProblemCountStore.ts.
use bsg.Prelude.{ℕ, false, some, List, ◌≡◌, refl, if◌then◌else◌, Text, text_eq, text_eq_refl}
use mathlib.Core.List.{Perm}
use bsg.Stores.Counts.{CountFilters, build_problem_count_key, CountState, get_count, set_count}
use bsg.Stores.Counts.Order.{sort-perm}

-- The key does not depend on the order in which tags and companies were picked.
key_of_perm :
    (f : CountFilters) (tags companies : List Text)
    → Perm f.tags tags
    → Perm f.companies companies
    → build_problem_count_key f
      ≡ build_problem_count_key (record f { tags = tags; companies = companies })
unfolding build_problem_count_key
key_of_perm f tags companies p q = rw (sort-perm p, sort-perm q)

pub get_count-set_count :
    (key k : Text) (n : ℕ) (s : CountState)
    → get_count k (set_count key n s) ≡ (if text_eq key k then some n else get_count k s)
unfolding get_count set_count
get_count-set_count key k n s = refl

pub cached_in_order :
    (f : CountFilters) (tags companies : List Text) (n : ℕ) (s : CountState)
    → Perm f.tags tags
    → Perm f.companies companies
    → get_count
        (build_problem_count_key (record f { tags = tags; companies = companies }))
        (set_count (build_problem_count_key f) n s)
      ≡ some n
cached_in_order f tags companies n s p q = rw (
  ← key_of_perm f tags companies p q,
  get_count-set_count (build_problem_count_key f) (build_problem_count_key f) n s,
  text_eq_refl (build_problem_count_key f),
)

-- A count that was cached for a choice of filters is found again for the same tags and companies in
-- any other order, and caching it hides no count that is cached under another key.
cached_for_any_order :
    (f : CountFilters) (tags companies : List Text) (n : ℕ) (s : CountState) (k : Text)
    → Perm f.tags tags
    → Perm f.companies companies
    → text_eq (build_problem_count_key f) k ≡ false
    → (get_count
          (build_problem_count_key (record f { tags = tags; companies = companies }))
          (set_count (build_problem_count_key f) n s)
        ≡ some n)
      × (get_count k (set_count (build_problem_count_key f) n s) ≡ get_count k s)
cached_for_any_order f tags companies n s k p q other = (
  cached_in_order f tags companies n s p q,
  rw (get_count-set_count (build_problem_count_key f) k n s, other),
)
