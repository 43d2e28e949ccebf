-- ===== src/Navigation/Slugs.antt =====
-- Problem slugs in URLs: `parseProblemSlug` and `problemUrl` of
-- bsg-frontend/apps/extension/hooks/useRoomEvents.ts.
use bsg.Prelude.{
  ℕ, true, false, Option, none, some, [], ◌∷◌, ◌++◌, ◌≡◌, refl, ap, arith, Text, codes, All,
  nonempty, if◌then◌else◌, Bool-cases, inl, inr, ◌∙◌, sym, Option-cases, subst, strip_prefix,
}
use bsg.Navigation.{
  is_slug_char, slug_span, problems_part, match_here, captured, parse_problem_slug, problem_url,
}

-- A non-empty text with no `/`, `?` or `#`.
abbrev pub IsSlug : Text → Type 0
IsSlug s = (nonempty s ≡ true) × All (λ c. is_slug_char c ≡ true) s

-- Where the captured group must end.
abbrev pub EndsSlug : Text → Type 0
EndsSlug [] = Unit
EndsSlug (c ∷ s) = is_slug_char c ≡ false

slug_span-append :
    (s t : Text) → All (λ c. is_slug_char c ≡ true) s → EndsSlug t → slug_span (s ++ t) ≡ s
slug_span-append [] [] h e = refl
slug_span-append [] (c ∷ t) h e = rw e
slug_span-append (c ∷ s) t (h, hs) e = rw h (ap (λ r. c ∷ r) (slug_span-append s t hs e))

slug_span-All : (s : Text) → All (λ c. is_slug_char c ≡ true) (slug_span s)
slug_span-All [] = tt
slug_span-All (c ∷ s) = elim (Bool-cases (is_slug_char c)) [
  | inl h ↦ rw h (h, slug_span-All s)
  | inr h ↦ rw h tt
]

match_here-problems_part :
    (slug t : Text)
    → IsSlug slug
    → EndsSlug t
    → match_here (problems_part ++ (slug ++ t)) ≡ some slug
match_here-problems_part [] t (h, _) e = cc
match_here-problems_part (c ∷ s) t (h, hs) e = ap captured (slug_span-append (c ∷ s) t hs e)

parse_of_match_here :
    (c : ℕ) (s : Text) {slug : Text}
    → match_here (c ∷ s) ≡ some slug
    → parse_problem_slug (c ∷ s) ≡ some slug
unfolding parse_problem_slug
parse_of_match_here c s h = rw (h, parse_problem_slug)

-- The address that the extension builds for a problem is read back as that problem.
pub parse_problem_slug-problem_url :
    (slug : Text) → IsSlug slug → parse_problem_slug (problem_url slug) ≡ some slug
unfolding parse_problem_slug problem_url
parse_problem_slug-problem_url slug h =
    parse_of_match_here b'/' (codes "problems/" ++ (slug ++ codes "/"))
      (match_here-problems_part slug (codes "/") h refl)

-- The rest of a text behind a span.
slug_rest : Text → Text
slug_rest [] = []
slug_rest (c ∷ s) = if is_slug_char c then slug_rest s else c ∷ s

slug_span-split : (s : Text) → slug_span s ++ slug_rest s ≡ s
unfolding slug_rest
slug_span-split [] = refl
slug_span-split (c ∷ s) = elim (Bool-cases (is_slug_char c)) [
  | inl h ↦ rw h (ap (λ r. c ∷ r) (slug_span-split s))
  | inr h ↦ rw h
]

slug_rest-EndsSlug : (s : Text) → EndsSlug (slug_rest s)
unfolding slug_rest
slug_rest-EndsSlug [] = tt
slug_rest-EndsSlug (c ∷ s) = elim (Bool-cases (is_slug_char c)) [
  | inl h ↦ rw h (slug_rest-EndsSlug s)
  | inr h ↦ rw h h
]

strip_prefix_sound : (p s : Text) (r : Text) → strip_prefix p s ≡ some r → s ≡ p ++ r
strip_prefix_sound [] s r h = cc
strip_prefix_sound (c ∷ p) [] r h = cc
strip_prefix_sound (c ∷ p) (d ∷ s) r h = ground (arith, strip_prefix_sound p s r)

-- How a slug stands in a URL: behind `/problems/`, up to the end or a delimiter.
pub record Occurs (url slug : Text) : Type 0 where
  pub before : Text
  pub after : Text
  pub split : url ≡ before ++ (problems_part ++ (slug ++ after))
  pub ends : EndsSlug after

captured_sound : (t slug : Text) → captured t ≡ some slug → (t ≡ slug) × (nonempty slug ≡ true)
captured_sound [] slug h = cc
captured_sound (c ∷ t) slug h = ground arith

found_sound :
    (s rest slug : Text)
    → s ≡ problems_part ++ rest
    → captured (slug_span rest) ≡ some slug
    → IsSlug slug × Occurs s slug
found_sound s rest slug e h =
    let (same, full) = captured_sound (slug_span rest) slug h in
    (
      (full, subst (All (λ c. is_slug_char c ≡ true)) same (slug_span-All rest)),
      record {
        before = [];
        after = slug_rest rest;
        split =
            e
            ∙ ap (λ r. problems_part ++ r)
                (sym (ap (λ r. r ++ slug_rest rest) (sym same) ∙ slug_span-split rest));
        ends = slug_rest-EndsSlug rest;
      },
    )

match_here_sound : (s slug : Text) → match_here s ≡ some slug → IsSlug slug × Occurs s slug
match_here_sound s slug h = elim (Option-cases (strip_prefix problems_part s)) [
  | inl e ↦ let h' : ◌≡◌ {A = Option Text} none (some slug) = rw e at h in cc
  | inr (rest, e) ↦ found_sound s rest slug (strip_prefix_sound problems_part s rest e) (rw e at h)
]

Occurs-cons : (c : ℕ) (s slug : Text) → Occurs s slug → Occurs (c ∷ s) slug
Occurs-cons c s slug o = record {
  before = c ∷ o.before;
  after = o.after;
  split = ap (λ r. c ∷ r) o.split;
  ends = o.ends;
}

-- What is read from any URL is a slug that stands in it behind `/problems/`, and it is read to its
-- end: the text stops there, or goes on with a delimiter.
parse_problem_slug_sound :
    (url slug : Text) → parse_problem_slug url ≡ some slug → IsSlug slug × Occurs url slug
unfolding parse_problem_slug
parse_problem_slug_sound [] slug h = cc
parse_problem_slug_sound (c ∷ s) slug h = elim (Option-cases (match_here (c ∷ s))) [
  | inl e ↦
      let (k, o) = parse_problem_slug_sound s slug (rw (e, parse_problem_slug) at h) in
      (k, Occurs-cons c s slug o)
  | inr (found, e) ↦ match_here_sound (c ∷ s) slug (e ∙ (rw (e, parse_problem_slug) at h))
]
