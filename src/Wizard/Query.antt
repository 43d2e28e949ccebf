-- ===== src/Wizard/Query.antt =====
-- The live count of matching problems: the effect on the filters in
-- bsg-frontend/apps/extension/hooks/useRoomChoice.ts, with its cache
-- (bsg-frontend/apps/extension/stores/useProblemCountStore.ts). The effect runs again for each change
-- of the filters; a run that is superseded is aborted.
use bsg.Prelude.{
  ℕ, Bool, true, false, Option, none, some, List, [], ◌∷◌, ◌++◌, ◌≡◌, inl, inr, refl, Text, codes,
  join, nonempty, Option-cases,
}
use bsg.Prelude.Json.{Json, num, get_opt}
use bsg.Prelude.Int.{pos}
use bsg.Requests.{Reply, ok_body}
use bsg.Stores.Counts.{CountFilters, CountState, build_problem_count_key, get_count, set_count}
use mathlib.Core.List.{Perm}
use bsg.Stores.Counts.Keys.{cached_in_order}
use bsg.Wizard.{FormState}
use bsg.Wizard.Filters.{active_difficulties}

pub record QueryState : Type 0 where
  pub available_count : Option ℕ
  pub is_loading_filter : Bool
  pub cache : CountState

unfoldable pub filters_of : FormState → CountFilters
filters_of s = record {
  difficulties = active_difficulties s;
  tags = s.selected_topics;
  companies = s.selected_companies;
  blind75 = s.blind75;
  neetcode150 = s.neetcode150;
  recently_asked = s.recently_asked;
  exclude_paid = s.exclude_paid;
}

-- The body of the effect: a cached count is shown at once, otherwise a request is due (`true`).
abbrev start_with : Option ℕ → QueryState → QueryState × Bool
start_with (some count) q =
    (record q { available_count = some count; is_loading_filter = false }, false)
start_with none q = (record q { is_loading_filter = true }, true)

unfoldable pub start_query : CountFilters → QueryState → QueryState × Bool
start_query f q = start_with (get_count (build_problem_count_key f) q.cache) q

-- The parameters of the request, without those that are left out.
abbrev pub given : Bool → Text → Text → List (Text × Text)
given true key value = (key, value) ∷ []
given false key value = []

abbrev pub some_texts : List Text → Bool
some_texts [] = false
some_texts (t ∷ ts) = true

unfoldable pub query_params : CountFilters → List (Text × Text)
query_params f =
    given (nonempty f.difficulties) (codes "difficulties") f.difficulties
    ++ (given (some_texts f.tags) (codes "tags") (join (codes ",") f.tags)
        ++ (given (some_texts f.companies) (codes "companies") (join (codes ",") f.companies)
            ++ (given f.blind75 (codes "blind75") (codes "true")
                ++ (given f.neetcode150 (codes "neetcode150") (codes "true")
                    ++ (given f.recently_asked (codes "recentlyAsked") (codes "true")
                        ++ given f.exclude_paid (codes "excludePaid") (codes "true"))))))

-- `typeof payload?.data === 'number' ? payload.data : null`; counts are natural numbers.
abbrev count_of : Json → Option ℕ
count_of (num (pos n)) = some n
count_of v = none

abbrev answer : CountFilters → Option ℕ → QueryState → QueryState
answer f none q = record q { available_count = none; is_loading_filter = false }
answer f (some n) q = record q {
  available_count = some n;
  is_loading_filter = false;
  cache = set_count (build_problem_count_key f) n q.cache;
}

abbrev finish_reply : CountFilters → Option Json → QueryState → QueryState
finish_reply f none q = record q { is_loading_filter = false }
finish_reply f (some payload) q = answer f (count_of (get_opt payload (codes "data"))) q

-- What the reply does; `none` is an abort. A refused or unreadable reply only ends the loading.
unfoldable pub finish_query : CountFilters → Option Reply → QueryState → QueryState
finish_query f none q = q
finish_query f (some reply) q = finish_reply f (ok_body reply) q

-- The request was answered with a number.
abbrev pub Answers : Reply → ℕ → Type 0
Answers reply n =
    (payload : Json) × (ok_body reply ≡ some payload)
    × (get_opt payload (codes "data") ≡ num (pos n))

finish-answer :
    (f : CountFilters) (reply : Reply) (n : ℕ) (q : QueryState)
    → Answers reply n
    → finish_query f (some reply) q ≡ answer f (some n) q
unfolding finish_query
finish-answer f reply n q (payload, h, e) = rw (h, e)

-- Once a count has been answered for some filters it is shown, and choosing the same tags and
-- companies again, in any order, shows it at once: nothing is requested and nothing is loading.
pub answered_from_cache :
    (f : CountFilters) (tags companies : List Text) (reply : Reply) (n : ℕ) (q : QueryState)
    → Perm f.tags tags
    → Perm f.companies companies
    → Answers reply n
    → let q' = finish_query f (some reply) q in
      let again = start_query (record f { tags = tags; companies = companies }) q' in
      (q'.available_count ≡ some n)
      × (again.0.available_count ≡ some n)
      × (again.0.is_loading_filter ≡ false)
      × (again.1 ≡ false)
unfolding start_query
answered_from_cache f tags companies reply n q p r a =
    let found = cached_in_order f tags companies n q.cache p r in
    rw (finish-answer f reply n q a) (refl, rw found, rw found, rw found)

-- While a request is due the form shows that it is loading, so its button waits for the count.
due-loading :
    (f : CountFilters) (q : QueryState)
    → ((start_query f q).1 ≡ (start_query f q).0.is_loading_filter)
      × ((start_query f q).0.cache ≡ q.cache)
unfolding start_query
due-loading f q = elim (Option-cases (get_count (build_problem_count_key f) q.cache)) [
  | inl e ↦ (rw e, rw e)
  | inr (n, e) ↦ (rw e, rw e)
]
