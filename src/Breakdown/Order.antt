-- ===== src/Breakdown/Order.antt =====
-- The breakdown does not depend on the order of the server's list:
-- bsg-frontend/apps/extension/customComponents/RoomDisplays/StatisticsDisplay.tsx.
use bsg.Prelude.{
  ◌+◌, ◌<◌, List, [], ◌∷◌, ◌≡◌, ◌≢◌, refl, ap, ◌∙◌, sym, Text, arith, Bool-cases, inl, inr, ◌⊎◌,
  ltb→lt,
}
use bsg.Prelude.Int.{ℤ, ltb_ℤ, pos_part, neg_part, eq_of_parts}
use bsg.Progress.{SolvedProblemInfo, RoundDetails}
use bsg.Breakdown.{insert_by_time, sorted_solved, solved_breakdown, from_start, breakdown_of, tally}

module _ (time : Text → ℤ) where
  -- The same solves in another order, where those of one instant keep theirs.
  pub data Reordered : List SolvedProblemInfo → List SolvedProblemInfo → Type 0 where
    same : (l : List SolvedProblemInfo) → Reordered l l
    keep :
        (x : SolvedProblemInfo) {k l : List SolvedProblemInfo}
        → Reordered k l
        → Reordered (x ∷ k) (x ∷ l)
    swap :
        (x y : SolvedProblemInfo) (l : List SolvedProblemInfo)
        → time x.timestamp ≢ time y.timestamp
        → Reordered (x ∷ y ∷ l) (y ∷ x ∷ l)
    next : {j k l : List SolvedProblemInfo} → Reordered j k → Reordered k l → Reordered j l

  -- Two instants that differ are ordered one way or the other.
  apart :
      (a b : ℤ)
      → a ≢ b
      → (pos_part a + neg_part b < pos_part b + neg_part a)
        ⊎ (pos_part b + neg_part a < pos_part a + neg_part b)
  apart a b h =
      let ne : pos_part a + neg_part b ≢ pos_part b + neg_part a = λ e. h (eq_of_parts a b e) in
      elim (Bool-cases (ltb_ℤ a b)) [
        | inl lt ↦ inl (ltb→lt _ _ lt)
        | inr ge ↦ inr (ground (arith, ne))
      ]

  insert_comm :
      (x y : SolvedProblemInfo) (l : List SolvedProblemInfo)
      → time x.timestamp ≢ time y.timestamp
      → insert_by_time time x (insert_by_time time y l)
        ≡ insert_by_time time y (insert_by_time time x l)
  unfolding insert_by_time
  insert_comm x y [] h = elim (apart (time x.timestamp) (time y.timestamp) h) [
    | inl lt ↦ ground arith
    | inr gt ↦ ground arith
  ]
  insert_comm x y (z ∷ zs) h = elim (apart (time x.timestamp) (time y.timestamp) h) [
    | inl lt ↦ ground (arith, insert_comm x y zs h)
    | inr gt ↦ ground (arith, insert_comm x y zs h)
  ]

  sorted_solved-Reordered :
      {k l : List SolvedProblemInfo} → Reordered k l → sorted_solved time k ≡ sorted_solved time l
  unfolding sorted_solved
  sorted_solved-Reordered (same l) = refl
  sorted_solved-Reordered (keep x r) = ap (insert_by_time time x) (sorted_solved-Reordered r)
  sorted_solved-Reordered (swap x y l h) = insert_comm x y (sorted_solved time l) h
  sorted_solved-Reordered (next p q) = sorted_solved-Reordered p ∙ sorted_solved-Reordered q

  solved_breakdown-tally :
      (d : RoundDetails) (l : List SolvedProblemInfo)
      → solved_breakdown time d l
        ≡ breakdown_of
            (tally time d.problems (sorted_solved time l) (from_start (time d.round_start_time)))
  unfolding solved_breakdown tally sorted_solved
  solved_breakdown-tally d [] = refl
  solved_breakdown-tally d (s ∷ ss) = refl

  -- Where the server lists the same solves in another order, those of one instant in theirs, the
  -- breakdown of the player's round is the same.
  pub solved_breakdown-Reordered :
      (d : RoundDetails) {k l : List SolvedProblemInfo}
      → Reordered k l
      → solved_breakdown time d k ≡ solved_breakdown time d l
  solved_breakdown-Reordered d {k} {l} r =
      let start = from_start (time d.round_start_time) in
      solved_breakdown-tally d k
      ∙ ap (λ m. breakdown_of (tally time d.problems m start)) (sorted_solved-Reordered r)
      ∙ sym (solved_breakdown-tally d l)
