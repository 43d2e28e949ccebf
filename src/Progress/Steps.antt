-- ===== src/Progress/Steps.antt =====
-- Where the step buttons lead:
-- bsg-frontend/apps/extension/customComponents/Toolbar/Toolbar.tsx.
use bsg.Prelude.{
  or_true, ℕ, zero, suc, ◌<◌, true, false, Option, none, some, List, [], ◌∷◌, ◌≡◌, refl, arith,
  Text, Bool-cases, inl, inr, mem_text, text_eq, text_eq_refl, nonempty, length, get_elem?, ◌==◌,
}
use bsg.Prelude.Int.{ℤ, pos, negsuc, ◌+ℤ◌}
use bsg.Navigation.{parse_problem_slug, problem_url}
use bsg.Progress.{
  index_of, next_index, index_of_slug, sync, Button, previous, next, delta, disabled, new_index,
  step_problem, eq_ℤ,
}

-- Off the round, or a place in it.
abbrev InRange : ℕ → ℤ → Type 0
InRange len (pos n) = n < len
InRange len (negsuc n) = n ≡ 0

next_index-InRange : (len : ℕ) (i : ℤ) → InRange len i → InRange (suc len) (next_index i)
next_index-InRange len (pos n) h = omega arith
next_index-InRange len (negsuc n) h = h

index_of-InRange : (slug : Text) (ps : List Text) → InRange (length ps) (index_of slug ps)
index_of-InRange slug [] = refl
index_of-InRange slug (p ∷ ps) = elim (Bool-cases (text_eq p slug)) [
  | inl h ↦ rw h (omega arith)
  | inr h ↦ rw h (next_index-InRange (length ps) (index_of slug ps) (index_of-InRange slug ps))
]

index_of_slug-InRange :
    (o : Option Text) (ps : List Text) → InRange (length ps) (index_of_slug o ps)
index_of_slug-InRange none ps = refl
index_of_slug-InRange (some slug) ps = elim (Bool-cases (nonempty slug)) [
  | inl h ↦ rw h (index_of-InRange slug ps)
  | inr h ↦ rw h refl
]

sync-InRange : (url : Option Text) (ps : List Text) → InRange (length ps) (sync url ps)
unfolding sync
sync-InRange none ps = refl
sync-InRange (some url) ps = elim (Bool-cases (nonempty url)) [
  | inl h ↦ rw h (index_of_slug-InRange (parse_problem_slug url) ps)
  | inr h ↦ rw h refl
]

get_elem?-mem_text :
    (ps : List Text) (n : ℕ)
    → n < length ps
    → (s : Text) × (get_elem? ps n ≡ some s) × (mem_text s ps ≡ true)
get_elem?-mem_text [] n h = absurd (omega arith)
get_elem?-mem_text (p ∷ ps) zero h = (p, refl, rw (text_eq_refl p))
get_elem?-mem_text (p ∷ ps) (suc n) h =
    let (s, e, m) = get_elem?-mem_text ps n (omega arith) in (s, e, or_true (text_eq p s) _ m)

pred_pos : (n : ℕ) → pos (suc n) +ℤ negsuc 0 ≡ pos n
unfolding ◌+ℤ◌
pred_pos n = ground arith

succ_pos : (n : ℕ) → pos n +ℤ pos 1 ≡ pos (suc n)
unfolding ◌+ℤ◌
succ_pos n = ground arith

below_last :
    (n : ℕ) (len : ℕ) → n < suc len → eq_ℤ (pos n) (pos (suc len) +ℤ negsuc 0) ≡ false → n < len
below_last n len h e = let e' : (n == len) ≡ false = rw (pred_pos len) at e in ground arith

-- Where an enabled button leads from a place that is in range.
enabled_leads :
    (d : Button) (p : Text) (ps : List Text) (i : ℤ)
    → InRange (length (p ∷ ps)) i
    → disabled d (p ∷ ps) i ≡ false
    → (n : ℕ) × (new_index i (delta d) ≡ pos n) × (n < length (p ∷ ps))
unfolding disabled
enabled_leads previous p ps (negsuc zero) h e = (0, refl, omega arith)
enabled_leads next p ps (negsuc zero) h e = (0, refl, omega arith)
enabled_leads d p ps (negsuc (suc n)) h e = absurd (omega arith)
enabled_leads previous p ps (pos zero) h e = cc
enabled_leads previous p ps (pos (suc n)) h e = (n, pred_pos n, omega arith)
enabled_leads next p ps (pos n) h e =
    (suc n, succ_pos n, let k = below_last n (length ps) h e in omega arith)

-- From wherever the tab is, an enabled step button leads to a problem of the round, if it has any.
pub step_problem-in_round :
    (d : Button) (url : Option Text) (p : Text) (ps : List Text)
    → disabled d (p ∷ ps) (sync url (p ∷ ps)) ≡ false
    → (slug : Text) × (mem_text slug (p ∷ ps) ≡ true)
      × (step_problem (p ∷ ps) (sync url (p ∷ ps)) (delta d) ≡ problem_url slug)
unfolding step_problem
step_problem-in_round d url p ps e =
    let (n, there, below) =
      enabled_leads d p ps (sync url (p ∷ ps)) (sync-InRange url (p ∷ ps)) e in
    let (slug, found, member) = get_elem?-mem_text (p ∷ ps) n below in
    (slug, member, rw (there, found))
