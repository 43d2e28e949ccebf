-- ===== src/Server/Proxy/Laws.antt =====
-- The count of problems from the panel to the central service: server/src/routes/problems.js.
use bsg.Prelude.{
  Bool, true, false, Option, none, some, List, [], ◌∷◌, ◌++◌, ◌≡◌, ◌∙◌, ap, refl, arith,
  if◌then◌else◌, Text, codes, text_eq, nonempty, join, All,
}
use bsg.Stores.Counts.{CountFilters}
use bsg.Wizard.Query.{query_params, given, some_texts}
use bsg.Server.Proxy.{count_params, kept_param}

-- req.query: the value under a key.
abbrev pub query_of : List (Text × Text) → Text → Option Text
query_of [] k = none
query_of ((j, v) ∷ ps) k = if text_eq j k then some v else query_of ps k

-- A parameter that is set under a condition.
abbrev Param : Type 0
Param = Bool × (Text × Text)

abbrev set_params : List Param → List (Text × Text)
set_params [] = []
set_params ((b, (k, v)) ∷ ts) = given b k v ++ set_params ts

abbrev find_param : Text → List Param → Option Text
find_param k [] = none
find_param k ((b, (j, v)) ∷ ts) =
    if text_eq j k then (if b then some v else find_param k ts) else find_param k ts

query_of-set_params : (ts : List Param) (k : Text) → query_of (set_params ts) k ≡ find_param k ts
query_of-set_params [] k = refl
query_of-set_params ((true, (j, v)) ∷ ts) k =
    ap (λ o. if text_eq j k then some v else o) (query_of-set_params ts k)
query_of-set_params ((false, (j, v)) ∷ ts) k = query_of-set_params ts k ∙ ground arith

-- The panel's filters, in its order.
abbrev params_of : CountFilters → List Param
params_of f =
    (nonempty f.difficulties, (codes "difficulties", f.difficulties))
    ∷ (some_texts f.tags, (codes "tags", join (codes ",") f.tags))
    ∷ (some_texts f.companies, (codes "companies", join (codes ",") f.companies))
    ∷ (f.blind75, (codes "blind75", codes "true"))
    ∷ (f.neetcode150, (codes "neetcode150", codes "true"))
    ∷ (f.recently_asked, (codes "recentlyAsked", codes "true"))
    ∷ (f.exclude_paid, (codes "excludePaid", codes "true"))
    ∷ []

given_only : (b : Bool) (k v : Text) → given b k v ++ [] ≡ given b k v
given_only true k v = refl
given_only false k v = refl

query_params_of : (f : CountFilters) → set_params (params_of f) ≡ query_params f
unfolding query_params
query_params_of f = rw (given_only f.exclude_paid (codes "excludePaid") (codes "true")) refl

kept_given :
    (b : Bool) (k v : Text)
    → (b ≡ true → nonempty v ≡ true)
    → kept_param k (if b then some v else none) ≡ given b k v
kept_given true k v h = rw (h refl) refl
kept_given false k v h = refl

nonempty-join :
    (ts : List Text)
    → All (λ t. nonempty t ≡ true) ts
    → some_texts ts ≡ true
    → nonempty (join (codes ",") ts) ≡ true
nonempty-join [] h e = absurd cc
nonempty-join ((c ∷ s) ∷ []) h e = refl
nonempty-join ([] ∷ ts) (h, hs) e = absurd cc
nonempty-join ((c ∷ s) ∷ t ∷ ts) h e = refl

-- The parameters in the order of the server.
abbrev pub in_server_order : CountFilters → List (Text × Text)
in_server_order f =
    given (some_texts f.tags) (codes "tags") (join (codes ",") f.tags)
    ++ (given (some_texts f.companies) (codes "companies") (join (codes ",") f.companies)
        ++ (given f.blind75 (codes "blind75") (codes "true")
            ++ (given f.neetcode150 (codes "neetcode150") (codes "true")
                ++ (given f.recently_asked (codes "recentlyAsked") (codes "true")
                    ++ (given (nonempty f.difficulties) (codes "difficulties") f.difficulties
                        ++ given f.exclude_paid (codes "excludePaid") (codes "true"))))))

-- The parameters of a count of problems that the server sends on to the central service are all
-- those that the panel sets for its filters, where no tag or company is the empty text.
pub count_params-query_params :
    (f : CountFilters)
    → All (λ t. nonempty t ≡ true) f.tags
    → All (λ t. nonempty t ≡ true) f.companies
    → count_params (query_of (query_params f)) ≡ in_server_order f
unfolding count_params
count_params-query_params f ht hc =
    rw
      (
        ← query_params_of f,
        query_of-set_params (params_of f) (codes "tags"),
        query_of-set_params (params_of f) (codes "companies"),
        query_of-set_params (params_of f) (codes "blind75"),
        query_of-set_params (params_of f) (codes "neetcode150"),
        query_of-set_params (params_of f) (codes "recentlyAsked"),
        query_of-set_params (params_of f) (codes "difficulties"),
        query_of-set_params (params_of f) (codes "excludePaid"),
        kept_given (some_texts f.tags) (codes "tags") (join (codes ",") f.tags)
            (nonempty-join f.tags ht),
        kept_given (some_texts f.companies) (codes "companies") (join (codes ",") f.companies)
            (nonempty-join f.companies hc),
        kept_given f.blind75 (codes "blind75") (codes "true") (λ e. refl),
        kept_given f.neetcode150 (codes "neetcode150") (codes "true") (λ e. refl),
        kept_given f.recently_asked (codes "recentlyAsked") (codes "true") (λ e. refl),
        kept_given (nonempty f.difficulties) (codes "difficulties") f.difficulties (λ e. e),
        kept_given f.exclude_paid (codes "excludePaid") (codes "true") (λ e. refl),
      )
      refl
