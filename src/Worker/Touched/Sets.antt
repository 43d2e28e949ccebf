-- ===== src/Worker/Touched/Sets.antt =====
-- What the worker promises of the touched problems: a set of slugs, which only a new round empties:
-- bsg-frontend/extension/background.js.
use bsg.Prelude.{
  Bool, true, false, ◌&&◌, ◌||◌, Option, some, List, [], ◌∷◌, ◌++◌, ◌≡◌, ◌≢◌, ◌∙◌, refl, ap, arith,
  if◌then◌else◌, Text, Bool-cases, inl, inr, mem_text, text_eq, text_eq_iff, eq_of_text_eq,
  option_eq, nonempty,
}
use bsg.Worker.Touched.{
  SessionStorage, Fate, works, get_rejects, set_rejects, touched, mark_problem_touched,
  reset_touched_problems, TouchRequest, reset, touch, handle, handle_all,
}

-- The abstract state: the round, and which slugs are in the set.
pub record TouchedSet : Type 0 where
  pub round : Option Text
  pub has : Text → Bool

abbrev pub apply : TouchRequest → TouchedSet → TouchedSet
apply (touch slug) a = record a { has = λ k. (nonempty slug && text_eq slug k) || a.has k }
apply (reset key) a =
    if option_eq a.round (some key) then a else record { round = some key; has = λ k. false }

-- A request one of whose storage calls rejects is skipped.
abbrev pub apply_all : List (Fate × TouchRequest) → TouchedSet → TouchedSet
apply_all [] a = a
apply_all ((works, r) ∷ rs) a = apply_all rs (apply r a)
apply_all ((get_rejects, r) ∷ rs) a = apply_all rs a
apply_all ((set_rejects, r) ∷ rs) a = apply_all rs a

abbrev pub Distinct : List Text → Type 0
Distinct [] = Unit
Distinct (s ∷ ss) = (mem_text s ss ≡ false) × Distinct ss

pub record Represents (s : SessionStorage) (a : TouchedSet) : Type 0 where
  pub same_round : s.touched_slugs_round ≡ a.round
  pub members : (k : Text) → mem_text k (touched s) ≡ a.has k
  pub distinct : Distinct (touched s)

mem_text-append :
    (k : Text) (ss : List Text) (t : Text)
    → mem_text k (ss ++ t ∷ []) ≡ (text_eq t k || mem_text k ss)
mem_text-append k [] t = refl
mem_text-append k (s ∷ ss) t = ground (arith, mem_text-append k ss t)

text_eq_sym : (s t : Text) → text_eq s t ≡ text_eq t s
text_eq_sym s t = ground (arith, text_eq_iff s t, text_eq_iff t s)

Distinct-append :
    (ss : List Text) (t : Text) → Distinct ss → mem_text t ss ≡ false → Distinct (ss ++ t ∷ [])
Distinct-append [] t d h = (refl, tt)
Distinct-append (s ∷ ss) t (e, d) h = (
  ground (arith, mem_text-append s ss t, text_eq_sym s t),
  Distinct-append ss t d (ground (arith, text_eq_sym s t)),
)

rejected_lem :
    (fate : Fate) (r : TouchRequest) (s : SessionStorage) → fate ≢ works → handle fate r s ≡ s
unfolding handle mark_problem_touched reset_touched_problems
rejected_lem works r s h = absurd (h refl)
rejected_lem get_rejects (reset key) s h = refl
rejected_lem get_rejects (touch []) s h = refl
rejected_lem get_rejects (touch (c ∷ cs)) s h = refl
rejected_lem set_rejects (reset key) s h = ground arith
rejected_lem set_rejects (touch []) s h = refl
rejected_lem set_rejects (touch (c ∷ cs)) s h = ground arith

mem_text-again :
    (k t : Text) (ss : List Text)
    → mem_text t ss ≡ true
    → mem_text k ss ≡ (text_eq t k || mem_text k ss)
mem_text-again k t ss h = ground (arith, eq_of_text_eq t k)

kept_round :
    (s : SessionStorage) (a : TouchedSet) (key : Text) (b : Bool)
    → Represents s a
    → option_eq s.touched_slugs_round (some key) ≡ b
    → option_eq a.round (some key) ≡ b
kept_round s a key b h e = rw (← h.same_round) e

handle-Represents :
    (r : TouchRequest) (s : SessionStorage) (a : TouchedSet)
    → Represents s a
    → Represents (handle works r s) (apply r a)
unfolding handle mark_problem_touched reset_touched_problems
handle-Represents (reset key) s a h =
    elim (Bool-cases (option_eq s.touched_slugs_round (some key))) [
      | inl e ↦ rw (e, kept_round s a key true h e) h
      | inr e ↦
          rw (e, kept_round s a key false h e)
            record { same_round = refl; members = λ k. refl; distinct = tt }
    ]
handle-Represents (touch []) s a h = h
handle-Represents (touch (c ∷ cs)) s a h = elim (Bool-cases (mem_text (c ∷ cs) (touched s))) [
  | inl e ↦ rw e record {
    same_round = h.same_round;
    members = λ k.
        mem_text-again k (c ∷ cs) (touched s) e ∙ ap (λ b. text_eq (c ∷ cs) k || b) (h.members k);
    distinct = h.distinct;
  }
  | inr e ↦ rw e record {
    same_round = h.same_round;
    members = λ k.
        mem_text-append k (touched s) (c ∷ cs) ∙ ap (λ b. text_eq (c ∷ cs) k || b) (h.members k);
    distinct = Distinct-append (touched s) (c ∷ cs) h.distinct e;
  }
]

-- Over every sequence of requests, some of whose storage calls may reject, the worker's stored
-- slugs stand for the set that a set of slugs would be, which only another round empties and
-- which skips the rejected requests, and no slug is stored twice.
pub handle_all-Represents :
    (rs : List (Fate × TouchRequest)) (s : SessionStorage) (a : TouchedSet)
    → Represents s a
    → Represents (handle_all rs s) (apply_all rs a)
unfolding handle_all
handle_all-Represents [] s a h = h
handle_all-Represents ((works, r) ∷ rs) s a h =
    handle_all-Represents rs (handle works r s) (apply r a) (handle-Represents r s a h)
handle_all-Represents ((get_rejects, r) ∷ rs) s a h =
    rw (rejected_lem get_rejects r s (λ e. cc)) (handle_all-Represents rs s a h)
handle_all-Represents ((set_rejects, r) ∷ rs) s a h =
    rw (rejected_lem set_rejects r s (λ e. cc)) (handle_all-Represents rs s a h)
