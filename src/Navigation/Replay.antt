-- ===== src/Navigation/Replay.antt =====
-- The one door of automatic navigation, `navigateActiveTab` of
-- bsg-frontend/apps/extension/hooks/useRoomEvents.ts, and events that are replayed.
use bsg.Prelude.{
  ℕ, zero, suc, true, false, Option, none, some, List, [], ◌∷◌, ◌≡◌, ◌≢◌, refl, ap, arith, Text,
  All, Bool-cases, ◌⊎◌, inl, inr, ◌∙◌, subst, option_eq, text_eq_refl, text_eq_iff,
}
use bsg.Navigation.{
  parse_problem_slug, open_tab, visit, problem_url, resolve_resume_slug, is_round_problem, Tab,
  Tabs, usable, both_truthy, issue, go_to, navigate_active_tab,
}
use bsg.Navigation.Slugs.{IsSlug, parse_problem_slug-problem_url}

-- A tab update that is not rejected leaves the tab on the address that was asked for.
abbrev pub Obeys : (ℕ → Text → Option Tab) → Type 0
Obeys update =
    (id : ℕ) (url : Text) → update id url ≡ some (record { id = some id; url = some url })

-- One real move: the tab was elsewhere, and a single update is issued, to the chosen slug.
pub record Moves (update : ℕ → Text → Option Tab) (decide : Text → Option Text)
    (before after : Tabs) : Type 0 where
  pub id : ℕ
  pub url : Text
  pub slug : Text
  pub seen : open_tab before ≡ some (id, url)
  pub chosen : decide url ≡ some slug
  pub elsewhere : parse_problem_slug url ≢ some slug
  pub result : after ≡ issue update id (problem_url slug) before

option_ne : (o : Option Text) (t : Text) → option_eq o (some t) ≡ false → o ≢ some t
option_ne none t h e = cc
option_ne (some s) t h e = ground (arith, text_eq_iff s t)

-- A decision whose move, once made, is not followed by another one.
abbrev pub Settles : (Text → Option Text) → Type 0
Settles decide =
    (url slug : Text)
    → decide url ≡ some slug
    → IsSlug slug × ((decide (problem_url slug) ≡ none) ⊎ (decide (problem_url slug) ≡ some slug))

module _ (update : ℕ → Text → Option Tab) (decide : Text → Option Text) where
  module _ (s : Tabs) (id : ℕ) (url : Text) (seen : open_tab s ≡ some (id, url)) where
    go_to-Moves :
        (d : Option Text)
        → decide url ≡ d
        → (go_to update id url d s ≡ s) ⊎ Moves update decide s (go_to update id url d s)
    unfolding go_to
    go_to-Moves none e = inl refl
    go_to-Moves (some []) e = inl refl
    go_to-Moves (some (c ∷ t)) e =
        elim (Bool-cases (option_eq (parse_problem_slug url) (some (c ∷ t)))) [
          | inl h ↦ inl (rw h)
          | inr h ↦ inr (
              rw h (record {
                id = id;
                url = url;
                slug = c ∷ t;
                seen = seen;
                chosen = e;
                elsewhere = option_ne (parse_problem_slug url) (c ∷ t) h;
                result = refl;
              }))
        ]

  visit-Moves :
      (s : Tabs) (o : Option (ℕ × Text))
      → open_tab s ≡ o
      → (visit update decide o s ≡ s) ⊎ Moves update decide s (visit update decide o s)
  unfolding visit
  visit-Moves s none e = inl refl
  visit-Moves s (some (id, url)) e = go_to-Moves s id url e (decide url) refl

  -- Whatever decides the move: nothing happens, or one update is issued, from a page that is not
  -- the target's own, to the chosen slug.
  navigate_active_tab-Moves :
      (s : Tabs)
      → (navigate_active_tab update decide s ≡ s)
        ⊎ Moves update decide s (navigate_active_tab update decide s)
  unfolding navigate_active_tab
  navigate_active_tab-Moves s = visit-Moves s (open_tab s) refl

  go_to_same :
      (s : Tabs) (id : ℕ) (slug : Text)
      → IsSlug slug
      → go_to update id (problem_url slug) (some slug) s ≡ s
  unfolding go_to
  go_to_same s id [] (h, _) = cc
  go_to_same s id (c ∷ t) k = rw (parse_problem_slug-problem_url (c ∷ t) k, text_eq_refl (c ∷ t))

  -- A tab that stands on the page that would be chosen stays.
  stays_there :
      (s : Tabs) (id : ℕ) (slug : Text)
      → open_tab s ≡ some (id, problem_url slug)
      → IsSlug slug
      → (decide (problem_url slug) ≡ none) ⊎ (decide (problem_url slug) ≡ some slug)
      → navigate_active_tab update decide s ≡ s
  unfolding navigate_active_tab visit go_to
  stays_there s id slug seen k (inl e) = simp (seen, e)
  stays_there s id slug seen k (inr e) = simp (seen, e) (go_to_same s id slug k)

both_truthy_pos :
    (i : Option ℕ) (u : Option Text) (id : ℕ) (url : Text)
    → both_truthy i u ≡ some (id, url)
    → (k : ℕ) × (id ≡ suc k)
both_truthy_pos none u id url h = cc
both_truthy_pos (some zero) u id url h = cc
both_truthy_pos (some (suc i)) none id url h = cc
both_truthy_pos (some (suc i)) (some []) id url h = cc
both_truthy_pos (some (suc i)) (some (c ∷ s)) id url h = (i, ground arith)

usable_pos :
    (o : Option Tab) (id : ℕ) (url : Text) → usable o ≡ some (id, url) → (k : ℕ) × (id ≡ suc k)
usable_pos none id url h = cc
usable_pos (some t) id url h = both_truthy_pos t.id t.url id url h

open_tab_parts :
    (s : Tabs) (id : ℕ) (url : Text)
    → open_tab s ≡ some (id, url)
    → (s.available ≡ true) × ((k : ℕ) × (id ≡ suc k))
open_tab_parts s id url h = elim (Bool-cases s.available) [
  | inl a ↦ (a, usable_pos s.active id url (simp a at h))
  | inr a ↦ let h' : ◌≡◌ {A = Option (ℕ × Text)} none (some (id, url)) = simp a at h in cc
]

on_problem :
    (id k : ℕ) (slug : Text)
    → id ≡ suc k
    → both_truthy (some id) (some (problem_url slug)) ≡ some (id, problem_url slug)
unfolding problem_url
on_problem id k slug e = rw e

module _ (update : ℕ → Text → Option Tab) (obeys : Obeys update) where
  open_tab-issue :
      (s : Tabs) (id : ℕ) (url slug : Text)
      → open_tab s ≡ some (id, url)
      → open_tab (issue update id (problem_url slug) s) ≡ some (id, problem_url slug)
  unfolding issue
  open_tab-issue s id url slug h =
      let (a, (k, e)) = open_tab_parts s id url h in
      simp (a, obeys id (problem_url slug)) (on_problem id k slug e)

  -- Doing it twice is doing it once.
  navigate_twice :
      (decide : Text → Option Text)
      → Settles decide
      → (s : Tabs)
      → navigate_active_tab update decide (navigate_active_tab update decide s)
        ≡ navigate_active_tab update decide s
  navigate_twice decide settles s = elim (navigate_active_tab-Moves update decide s) [
    | inl same ↦ ap (navigate_active_tab update decide) same
    | inr m ↦
        let (k, d) = settles m.url m.slug m.chosen in
        rw m.result
          (stays_there update decide _ m.id m.slug (open_tab-issue s m.id m.url m.slug m.seen) k d)
  ]

-- The same event, delivered again and again.
abbrev pub repeat {ℓ} : {A : Type ℓ} → ℕ → (A → A) → A → A
repeat zero f a = a
repeat (suc n) f a = f (repeat n f a)

module _ (update : ℕ → Text → Option Tab) (obeys : Obeys update) (decide : Text → Option Text)
    (settles : Settles decide) (s : Tabs) where
  replays :
      (n : ℕ)
      → repeat (suc n) (navigate_active_tab update decide) s ≡ navigate_active_tab update decide s
  replays zero = refl
  replays (suc n) =
      ap (navigate_active_tab update decide) (replays n)
      ∙ navigate_twice update obeys decide settles s

resume_head :
    (url : Text) (problems : List Text) (slug : Text)
    → resolve_resume_slug url problems ≡ some slug
    → (rest : List Text) × (problems ≡ slug ∷ rest)
unfolding resolve_resume_slug
resume_head url [] slug h = cc
resume_head url (p ∷ ps) slug h = (ps, ground arith)

resume-round_problem :
    (url : Text) (problems : List Text)
    → is_round_problem (parse_problem_slug url) problems ≡ true
    → resolve_resume_slug url problems ≡ none
unfolding resolve_resume_slug
resume-round_problem url [] h = refl
resume-round_problem url (p ∷ ps) h = rw h

resume-Settles :
    (problems : List Text) → All IsSlug problems → Settles (λ url. resolve_resume_slug url problems)
resume-Settles problems slugs url slug h =
    let (rest, e) = resume_head url problems slug h in
    let k : IsSlug slug = (subst (All IsSlug) e slugs).0 in
    let on : is_round_problem (parse_problem_slug (problem_url slug)) problems ≡ true =
      rw (parse_problem_slug-problem_url slug k, e) (rw (k.0, text_eq_refl slug)) in
    (k, inl (resume-round_problem (problem_url slug) problems on))

constant-Settles : (slug : Text) → IsSlug slug → Settles (λ _. some slug)
constant-Settles slug k url t h = let e : slug ≡ t = cc in (subst IsSlug e k, inr h)

-- The move of a round-start or join-round that is made any number of times, each from where the tab
-- then is, moves the tab at most once: all further ones change nothing. This holds where tab updates
-- are not rejected and the round's slugs are well formed.
pub resume_replays :
    (update : ℕ → Text → Option Tab)
    → Obeys update
    → (problems : List Text) → All IsSlug problems
    → (s : Tabs) (n : ℕ)
    → repeat (suc n) (navigate_active_tab update (λ url. resolve_resume_slug url problems)) s
      ≡ navigate_active_tab update (λ url. resolve_resume_slug url problems) s
resume_replays update obeys problems slugs s n =
    replays update obeys _ (resume-Settles problems slugs) s n

-- The move of a next-problem, whose target is fixed by the server, likewise has all its effect the
-- first time. This holds where tab updates are not rejected and the slug is well formed.
next_problem_replays :
    (update : ℕ → Text → Option Tab)
    → Obeys update
    → (slug : Text) → IsSlug slug
    → (s : Tabs) (n : ℕ)
    → repeat (suc n) (navigate_active_tab update (λ _. some slug)) s
      ≡ navigate_active_tab update (λ _. some slug) s
next_problem_replays update obeys slug k s n = replays update obeys _ (constant-Settles slug k) s n

-- A user who already is on one of the round's problems is never moved by a resume.
resume_stays :
    (update : ℕ → Text → Option Tab) (problems : List Text) (s : Tabs) (id : ℕ) (url : Text)
    → open_tab s ≡ some (id, url)
    → is_round_problem (parse_problem_slug url) problems ≡ true
    → navigate_active_tab update (λ u. resolve_resume_slug u problems) s ≡ s
unfolding navigate_active_tab visit go_to
resume_stays update problems s id url seen on = simp (seen, resume-round_problem url problems on)
