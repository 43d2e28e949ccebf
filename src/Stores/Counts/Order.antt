-- ===== src/Stores/Counts/Order.antt =====
-- The order of texts and their sort, as `buildProblemCountKey` of
-- bsg-frontend/apps/extension/stores/useProblemCountStore.ts calls it.
use bsg.Prelude.{true, false, List, [], ◌∷◌, ◌≡◌, refl, ◌∙◌, arith, Text}
use mathlib.Core.Path.{ap₂}
use mathlib.Core.Logic.{∥∥₁_elim}
use mathlib.Core.List.{Permᴰ, Perm}
use native.Mathlib.Nat.{ℕ_set}
use bsg.Stores.Counts.{text_le, insert_sorted, sort}

text_le_antisym : (s t : Text) → text_le s t ≡ true → text_le t s ≡ true → s ≡ t
text_le_antisym [] [] h k = refl
text_le_antisym [] (d ∷ t) h k = cc
text_le_antisym (c ∷ s) [] h k = cc
text_le_antisym (c ∷ s) (d ∷ t) h k = ground (arith, text_le_antisym s t)

text_le_total : (s t : Text) → text_le s t ≡ false → text_le t s ≡ true
text_le_total [] t h = cc
text_le_total (c ∷ s) [] h = refl
text_le_total (c ∷ s) (d ∷ t) h = ground (arith, text_le_total s t)

text_le_trans : (s t u : Text) → text_le s t ≡ true → text_le t u ≡ true → text_le s u ≡ true
text_le_trans [] t u h k = refl
text_le_trans (c ∷ s) [] u h k = cc
text_le_trans (c ∷ s) (d ∷ t) [] h k = cc
text_le_trans (c ∷ s) (d ∷ t) (e ∷ u) h k = ground (arith, text_le_trans s t u)

-- Two insertions commute.
insert_swap :
    (s t : Text) (us : List Text)
    → insert_sorted s (insert_sorted t us) ≡ insert_sorted t (insert_sorted s us)
insert_swap s t [] = ground (arith, text_le_antisym s t, text_le_total s t)
insert_swap s t (u ∷ us) = ground (
  arith,
  text_le_antisym s t,
  text_le_total s t,
  text_le_trans s t u,
  text_le_trans t s u,
  insert_swap s t us,
)

pub sort-Permᴰ : {ss ts : List Text} → Permᴰ ss ts → sort ss ≡ sort ts
sort-Permᴰ Permᴰ.nil = refl
sort-Permᴰ (Permᴰ.cons {b = t} e p) = ap₂ insert_sorted e (sort-Permᴰ p)
sort-Permᴰ (Permᴰ.swap {a = s} {b = t} {l = us} e f) =
    insert_swap s t (sort us) ∙ ap₂ (λ a b. insert_sorted a (insert_sorted b (sort us))) f e
sort-Permᴰ (Permᴰ.trans p q) = sort-Permᴰ p ∙ sort-Permᴰ q

texts_set : IsSet (List Text)
texts_set = hlevel ℕ_set

pub sort-perm : {ss ts : List Text} → Perm ss ts → sort ss ≡ sort ts
sort-perm {ss} {ts} p = ∥∥₁_elim p (texts_set (sort ss) (sort ts)) sort-Permᴰ
