-- ===== src/Progress/Segments.antt =====
-- What a segment shows:
-- bsg-frontend/apps/extension/customComponents/Toolbar/ProblemProgress.tsx.
use bsg.Prelude.{
  or_true, Bool, true, false, Option, none, some, List, [], ◌∷◌, ◌≡◌, ◌↔◌, ◌⊎◌, inl, inr, Text,
  Bool-cases, text_eq, text_eq_iff, text_eq_refl, mem_text, nonempty, option_eq, if◌then◌else◌, ap,
  subst,
}
use bsg.Progress.{
  RoundProblem, SolvedProblemInfo, RoundDetails, slug_by_id, add_slug, slugs_of, own_solved,
  details_problems, solved_slugs, segment_state, solved, active, touched, untouched,
}

-- One of the user's solved problems is the round's problem with this slug.
abbrev pub Solves : List RoundProblem → Text → List SolvedProblemInfo → Type 0
Solves problems slug [] = ⊥
Solves problems slug (i ∷ is) =
    ((slug_by_id i.problem_id problems ≡ some slug) × (nonempty slug ≡ true))
    ⊎ Solves problems slug is

add_slug-found :
    (o : Option Text) (rest : List Text) (slug : Text)
    → mem_text slug (add_slug o rest) ≡ true
    → ((o ≡ some slug) × (nonempty slug ≡ true)) ⊎ (mem_text slug rest ≡ true)
add_slug-found none rest slug h = inr h
add_slug-found (some s) rest slug h = elim (Bool-cases (nonempty s)) [
  | inr empty ↦ inr (rw empty at h)
  | inl full ↦ elim (Bool-cases (text_eq s slug)) [
    | inl same ↦
        let e = (text_eq_iff s slug).0 same in
        inl (ap some e, subst (λ t. nonempty t ≡ true) e full)
    | inr other ↦ inr (rw (full, other) at h)
  ]
]

add_slug-here :
    (rest : List Text) (slug : Text)
    → nonempty slug ≡ true
    → mem_text slug (add_slug (some slug) rest) ≡ true
add_slug-here rest slug h = rw (h, text_eq_refl slug)

add_slug-there :
    (o : Option Text) (rest : List Text) (slug : Text)
    → mem_text slug rest ≡ true
    → mem_text slug (add_slug o rest) ≡ true
add_slug-there none rest slug h = h
add_slug-there (some s) rest slug h = elim (Bool-cases (nonempty s)) [
  | inr empty ↦ rw empty h
  | inl full ↦ rw full (or_true (text_eq s slug) (mem_text slug rest) h)
]

slugs_of-Solves :
    (problems : List RoundProblem) (is : List SolvedProblemInfo) (slug : Text)
    → mem_text slug (slugs_of problems is) ≡ true
    → Solves problems slug is
slugs_of-Solves problems [] slug h = cc
slugs_of-Solves problems (i ∷ is) slug h =
    elim (add_slug-found (slug_by_id i.problem_id problems) (slugs_of problems is) slug h) [
      | inl here ↦ inl here
      | inr there ↦ inr (slugs_of-Solves problems is slug there)
    ]

Solves-slugs_of :
    (problems : List RoundProblem) (is : List SolvedProblemInfo) (slug : Text)
    → Solves problems slug is
    → mem_text slug (slugs_of problems is) ≡ true
Solves-slugs_of problems [] slug h = absurd h
Solves-slugs_of problems (i ∷ is) slug (inl (e, full)) =
    rw e (add_slug-here (slugs_of problems is) slug full)
Solves-slugs_of problems (i ∷ is) slug (inr there) =
    add_slug-there (slug_by_id i.problem_id problems) (slugs_of problems is) slug
      (Solves-slugs_of problems is slug there)

solved_mem :
    (ones : List Text) (curr : Option Text) (touched_ones : List Text) (slug : Text)
    → segment_state ones curr touched_ones slug ≡ solved
    → mem_text slug ones ≡ true
unfolding segment_state
solved_mem ones curr touched_ones slug h = elim (Bool-cases (mem_text slug ones)) [
  | inl m ↦ m
  | inr m ↦ absurd (unsolved (option_eq curr (some slug)) (mem_text slug touched_ones) (rw m at h))
]
  where
    unsolved : (a t : Bool) → (if a then active else if t then touched else untouched) ≡ solved → ⊥
    unsolved true t h = cc
    unsolved false true h = cc
    unsolved false false h = cc

-- A segment shows as solved exactly if one of the problems that the server reports solved by the user is
-- the round's problem with that slug, whatever tab is open and whatever was touched.
segment_state_solved :
    (user : Option Text) (details : Option RoundDetails) (curr : Option Text)
    (touched_ones : List Text) (slug : Text)
    → (segment_state (solved_slugs user details) curr touched_ones slug ≡ solved)
      ↔ Solves (details_problems details) slug (own_solved user details)
unfolding segment_state solved_slugs
segment_state_solved user details curr touched_ones slug = (
  λ h.
      slugs_of-Solves (details_problems details) (own_solved user details) slug
        (solved_mem (solved_slugs user details) curr touched_ones slug h),
  λ h. rw (Solves-slugs_of (details_problems details) (own_solved user details) slug h),
)
