-- ===== src/TouchedView/Agrees.antt =====
-- The panel's view follows the worker's slugs:
-- bsg-frontend/apps/extension/hooks/useTouchedProblems.ts and bsg-frontend/extension/background.js.
use bsg.Prelude.{
  ◌+◌, Bool, true, false, Option, none, some, List, [], ◌∷◌, ◌++◌, ◌≡◌, refl, sym, ◌∙◌, subst,
  if◌then◌else◌, Text, ◌==◌, ==_iff, Bool-cases, ◌⊎◌, inl, inr, arith, mem_text, option_eq,
}
use bsg.Worker.Touched.{
  SessionStorage, Fate, works, get_rejects, set_rejects, TouchRequest, touch, reset, handle,
  touched, mark_problem_touched, reset_touched_problems,
}
use bsg.TouchedView.{
  TouchedView, mount, receive, answer_read, deliver_first, announce, ViewEvent, requested, answered,
  delivered, unmounted, step, run,
}

-- What the view comes to, once all changes are told of.
abbrev settled : List Text → List (List Text) → List Text
settled slugs [] = slugs
settled slugs (t ∷ ns) = settled t ns

settled-append : (slugs t : List Text) (ns : List (List Text)) → settled slugs (ns ++ t ∷ []) ≡ t
settled-append slugs t [] = refl
settled-append slugs t (u ∷ ns) = settled-append u t ns

-- A request that writes nothing leaves the slugs.
handle-writes :
    (fate : Fate) (r : TouchRequest) (s : SessionStorage)
    → (handle fate r s).writes ≡ s.writes
    → touched (handle fate r s) ≡ touched s
unfolding handle mark_problem_touched reset_touched_problems
handle-writes works (reset key) s h =
    elim (Bool-cases (option_eq s.touched_slugs_round (some key))) [
      | inl e ↦ rw e refl
      | inr e ↦ let k : s.writes + 1 ≡ s.writes = rw e at h in absurd (omega arith)
    ]
handle-writes set_rejects (reset key) s h = ground arith
handle-writes get_rejects (reset key) s h = refl
handle-writes fate (touch []) s h = refl
handle-writes works (touch (c ∷ cs)) s h = elim (Bool-cases (mem_text (c ∷ cs) (touched s))) [
  | inl e ↦ rw e refl
  | inr e ↦ let k : s.writes + 1 ≡ s.writes = rw e at h in absurd (omega arith)
]
handle-writes get_rejects (touch (c ∷ cs)) s h = refl
handle-writes set_rejects (touch (c ∷ cs)) s h = ground arith

announce-settled :
    (slugs : List Text) (fate : Fate) (r : TouchRequest) (s : SessionStorage)
    (ns : List (List Text))
    → settled slugs ns ≡ touched s
    → settled slugs (announce s (handle fate r s) ns) ≡ touched (handle fate r s)
announce-settled slugs fate r s ns h = elim (Bool-cases ((handle fate r s).writes == s.writes)) [
  | inl e ↦ rw e (h ∙ sym (handle-writes fate r s ((==_iff (handle fate r s).writes s.writes).0 e)))
  | inr e ↦ rw e (settled-append slugs (touched (handle fate r s)) ns)
]

-- Whether a delivery comes before the answer to the read.
abbrev overtaken_by : Bool → List ViewEvent → Bool
overtaken_by late [] = late
overtaken_by late (answered ∷ es) = late
overtaken_by late (delivered ∷ es) = overtaken_by true es
overtaken_by late (e ∷ es) = overtaken_by late es

abbrev pub overtaken : List ViewEvent → Bool
overtaken es = overtaken_by false es

receive-cases :
    (P : TouchedView → Type 0) (slugs : List Text) (v : TouchedView)
    → (v.cancelled ≡ true → P v)
    → P record v { slugs = slugs }
    → P (receive slugs v)
unfolding receive
receive-cases P slugs v left there = elim (Bool-cases v.cancelled) [
  | inl e ↦ go v.cancelled e (left e)
  | inr e ↦ stay v.cancelled e
]
  where
    go : (b : Bool) → b ≡ true → P v → P (if b then v else record v { slugs = slugs })
    go true e p = p
    go false e p = there

    stay : (b : Bool) → b ≡ false → P (if b then v else record v { slugs = slugs })
    stay true e = absurd cc
    stay false e = there

abbrev IsGone : TouchedView → Type 0
IsGone v = v.cancelled ≡ true

answer_read-IsGone :
    (o : Option (List Text)) (v : TouchedView) → IsGone v → IsGone (answer_read o v)
unfolding answer_read
answer_read-IsGone none v c = c
answer_read-IsGone (some slugs) v c =
    receive-cases IsGone slugs record v { answer = none } (λ e. e) c

deliver_first-IsGone :
    (ns : List (List Text)) (v : TouchedView) → IsGone v → IsGone (deliver_first ns v)
unfolding deliver_first
deliver_first-IsGone [] v c = c
deliver_first-IsGone (n ∷ ns) v c = receive-cases IsGone n record v { notices = ns } (λ e. e) c

step-IsGone : (e : ViewEvent) (v : TouchedView) → IsGone v → IsGone (step e v)
unfolding step
step-IsGone (requested fate r) v c = c
step-IsGone answered v c = answer_read-IsGone v.answer v c
step-IsGone delivered v c = deliver_first-IsGone v.notices v c
step-IsGone unmounted v c = refl

module _ (start : List Text) where
  -- The read is answered, and the changes lead to the stored slugs; or the answer came late.
  Done : Bool → TouchedView → Type 0
  Done late v =
      IsGone v
      ⊎ ((v.answer ≡ none)
          × ((settled v.slugs v.notices ≡ touched v.storage)
              ⊎ ((late ≡ true) × (v.notices ≡ []) × (v.slugs ≡ start))))

  -- The read is not answered yet.
  Waiting : Bool → TouchedView → Type 0
  Waiting late v =
      IsGone v
      ⊎ ((v.answer ≡ some start)
          × ((settled start v.notices ≡ touched v.storage)
              ⊎ ((late ≡ true) × (settled v.slugs v.notices ≡ touched v.storage))))

  announce-stale :
      (late : Bool) (slugs : List Text) (fate : Fate) (r : TouchRequest) (s : SessionStorage)
      (ns : List (List Text))
      → late ≡ true
      → ns ≡ []
      → slugs ≡ start
      → (settled slugs (announce s (handle fate r s) ns) ≡ touched (handle fate r s))
        ⊎ ((late ≡ true) × (announce s (handle fate r s) ns ≡ []) × (slugs ≡ start))
  announce-stale late slugs fate r s ns l n k =
      elim (Bool-cases ((handle fate r s).writes == s.writes)) [
        | inl e ↦ rw e (inr (l, n, k))
        | inr e ↦ rw e (inl (settled-append slugs (touched (handle fate r s)) ns))
      ]

  deliver_first-Done :
      (late : Bool) (ns : List (List Text)) (v : TouchedView)
      → v.notices ≡ ns
      → v.answer ≡ none
      → (settled v.slugs ns ≡ touched v.storage) ⊎ ((late ≡ true) × (ns ≡ []) × (v.slugs ≡ start))
      → Done late (deliver_first ns v)
  unfolding deliver_first Done
  deliver_first-Done late [] v e a (inl h) = inr (a, inl (rw e h))
  deliver_first-Done late [] v e a (inr (l, n, k)) = inr (a, inr (l, e, k))
  deliver_first-Done late (n ∷ ns) v e a (inl h) =
      receive-cases (Done late) n record v { notices = ns } (λ c. inl c) (inr (a, inl h))
  deliver_first-Done late (n ∷ ns) v e a (inr (l, k, _)) = absurd cc

  step-Done : (late : Bool) (e : ViewEvent) (v : TouchedView) → Done late v → Done late (step e v)
  unfolding Done step
  step-Done late e v (inl c) = inl (step-IsGone e v c)
  step-Done late (requested fate r) v (inr (a, inl h)) =
      inr (a, inl (announce-settled v.slugs fate r v.storage v.notices h))
  step-Done late (requested fate r) v (inr (a, inr (l, n, k))) =
      inr (a, announce-stale late v.slugs fate r v.storage v.notices l n k)
  step-Done late answered v (inr (a, h)) =
      subst (λ o. Done late (answer_read o v)) (sym a) (inr (a, h))
  step-Done late delivered v (inr (a, inl h)) = deliver_first-Done late v.notices v refl a (inl h)
  step-Done late delivered v (inr (a, inr (l, n, k))) =
      deliver_first-Done late v.notices v refl a (inr (l, n, k))
  step-Done late unmounted v (inr h) = inl refl

  run-Done :
      (late : Bool) (es : List ViewEvent) (v : TouchedView) → Done late v → Done late (run es v)
  unfolding run
  run-Done late [] v h = h
  run-Done late (e ∷ es) v h = run-Done late es (step e v) (step-Done late e v h)

  answered-Done :
      (late : Bool) (ns : List (List Text)) (v : TouchedView)
      → v.notices ≡ ns
      → (settled start ns ≡ touched v.storage)
        ⊎ ((late ≡ true) × (settled v.slugs ns ≡ touched v.storage))
      → Done late (receive start record v { answer = none })
  unfolding Done
  answered-Done late ns v e (inl h) =
      receive-cases (Done late) start record v { answer = none } (λ c. inl c)
        (inr (refl, inl (rw e h)))
  answered-Done late [] v e (inr (l, h)) =
      receive-cases (Done late) start record v { answer = none } (λ c. inl c)
        (inr (refl, inr (l, e, refl)))
  answered-Done late (n ∷ ns) v e (inr (l, h)) =
      receive-cases (Done late) start record v { answer = none } (λ c. inl c)
        (inr (refl, inl (rw e h)))

  delivered-Waiting :
      (late : Bool) (ns : List (List Text)) (v : TouchedView)
      → v.notices ≡ ns
      → v.answer ≡ some start
      → (settled start ns ≡ touched v.storage)
        ⊎ ((late ≡ true) × (settled v.slugs ns ≡ touched v.storage))
      → Waiting true (deliver_first ns v)
  unfolding deliver_first Waiting
  delivered-Waiting late [] v e a (inl h) = inr (a, inl (rw e h))
  delivered-Waiting late [] v e a (inr (l, h)) = inr (a, inr (refl, rw e h))
  delivered-Waiting late (n ∷ ns) v e a (inl h) =
      receive-cases (Waiting true) n record v { notices = ns } (λ c. inl c) (inr (a, inr (refl, h)))
  delivered-Waiting late (n ∷ ns) v e a (inr (l, h)) =
      receive-cases (Waiting true) n record v { notices = ns } (λ c. inl c) (inr (a, inr (refl, h)))

  -- What a course of events comes to, where the read may still be open.
  abbrev Ends : Bool → TouchedView → Type 0
  Ends late v = (v.answer ≡ some start) ⊎ Done late v

  run-gone : (late : Bool) (es : List ViewEvent) (v : TouchedView) → IsGone v → Ends late (run es v)
  unfolding Done
  run-gone late es v c = inr (run-Done late es v (inl c))

  run_from :
      (late : Bool) (es : List ViewEvent) (v : TouchedView)
      → Waiting late v
      → Ends (overtaken_by late es) (run es v)
  unfolding Waiting run step
  run_from late es v (inl c) = run-gone (overtaken_by late es) es v c
  run_from late [] v (inr (a, h)) = inl a
  run_from late (requested fate r ∷ es) v (inr (a, inl h)) =
      run_from late es (step (requested fate r) v)
        (inr (a, inl (announce-settled start fate r v.storage v.notices h)))
  run_from late (requested fate r ∷ es) v (inr (a, inr (l, h))) =
      run_from late es (step (requested fate r) v)
        (inr (a, inr (l, announce-settled v.slugs fate r v.storage v.notices h)))
  run_from late (answered ∷ es) v (inr (a, h)) = inr (
      run-Done late es (answer_read v.answer v)
        (subst (λ o. Done late (answer_read o v)) (sym a) (answered-Done late v.notices v refl h)))
  run_from late (delivered ∷ es) v (inr (a, h)) =
      run_from true es (deliver_first v.notices v) (delivered-Waiting late v.notices v refl a h)
  run_from late (unmounted ∷ es) v (inr h) = run_from late es (step unmounted v) (inl refl)

-- Over every interleaving of requests to the worker, some of whose storage calls may reject, of the
-- storage's news, told in their order, and of the answer to the hook's read, which may come at any
-- time: once the read is answered and all is told, the hook of a panel that is still there holds the
-- worker's slugs; or else a delivery of news came before the read's answer, and the hook holds the slugs
-- that were stored at its start.
pub run-Agrees :
    (es : List ViewEvent) (s : SessionStorage)
    → (run es (mount s)).cancelled ≡ false
    → (run es (mount s)).answer ≡ none
    → (run es (mount s)).notices ≡ []
    → ((run es (mount s)).slugs ≡ touched (run es (mount s)).storage)
      ⊎ ((overtaken es ≡ true) × ((run es (mount s)).slugs ≡ touched s))
unfolding mount Waiting Done
run-Agrees es s there read told =
    let v = run es (mount s) in
    elim (run_from (touched s) false es (mount s) (inr (refl, inl refl))) [
      | inl open_still ↦ absurd cc
      | inr (inl c) ↦ absurd cc
      | inr (inr (_, inl h)) ↦ inl (subst (λ ns. settled v.slugs ns ≡ touched v.storage) told h)
      | inr (inr (_, inr (l, _, k))) ↦ inr (l, k)
    ]
