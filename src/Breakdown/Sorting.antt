-- ===== src/Breakdown/Sorting.antt =====
-- The sort of the solves by their instants:
-- bsg-frontend/apps/extension/customComponents/RoomDisplays/StatisticsDisplay.tsx.
use bsg.Prelude.{List, [], ◌∷◌, ◌≢◌, Text, arith, Bool-cases, ◌⊎◌, inl, inr, All}
use bsg.Prelude.Int.{ℤ, ltb_ℤ, ◌≤ℤ◌}
use bsg.Progress.{SolvedProblemInfo}
use bsg.Breakdown.{insert_by_time, sorted_solved}

-- Some element satisfies it.
abbrev pub Some {ℓ} : {A : Type ℓ} → (A → Type 0) → List A → Type 0
Some P [] = ⊥
Some P (x ∷ xs) = P x ⊎ Some P xs

module _ (time : Text → ℤ) where
  abbrev pub Ascending : List SolvedProblemInfo → Type 0
  Ascending [] = Unit
  Ascending (s ∷ ss) = All (λ t. time s.timestamp ≤ℤ time t.timestamp) ss × Ascending ss

  insert-All :
      (P : SolvedProblemInfo → Type 0) (s : SolvedProblemInfo) (l : List SolvedProblemInfo)
      → P s
      → All P l
      → All P (insert_by_time time s l)
  unfolding insert_by_time
  insert-All P s [] p h = (p, tt)
  insert-All P s (t ∷ ts) p (q, h) =
      elim (Bool-cases (ltb_ℤ (time t.timestamp) (time s.timestamp))) [
        | inl lt ↦ rw lt (q, insert-All P s ts p h)
        | inr ge ↦ rw ge (p, (q, h))
      ]

  All-insert :
      (P : SolvedProblemInfo → Type 0) (s : SolvedProblemInfo) (l : List SolvedProblemInfo)
      → All P (insert_by_time time s l)
      → P s × All P l
  unfolding insert_by_time
  All-insert P s [] h = h
  All-insert P s (t ∷ ts) h = elim (Bool-cases (ltb_ℤ (time t.timestamp) (time s.timestamp))) [
    | inl lt ↦ let k = rw lt at h in let (p, q) = All-insert P s ts k.1 in (p, (k.0, q))
    | inr ge ↦ let k = rw ge at h in (k.0, k.1)
  ]

  pub sorted_solved-All :
      (P : SolvedProblemInfo → Type 0) (l : List SolvedProblemInfo)
      → All P l
      → All P (sorted_solved time l)
  unfolding sorted_solved
  sorted_solved-All P [] h = tt
  sorted_solved-All P (s ∷ ss) (p, h) =
      insert-All P s (sorted_solved time ss) p (sorted_solved-All P ss h)

  pub All-sorted_solved :
      (P : SolvedProblemInfo → Type 0) (l : List SolvedProblemInfo)
      → All P (sorted_solved time l)
      → All P l
  unfolding sorted_solved
  All-sorted_solved P [] h = tt
  All-sorted_solved P (s ∷ ss) h =
      let (p, q) = All-insert P s (sorted_solved time ss) h in (p, All-sorted_solved P ss q)

  All-mono :
      {P Q : SolvedProblemInfo → Type 0} (l : List SolvedProblemInfo)
      → ((s : SolvedProblemInfo) → P s → Q s)
      → All P l
      → All Q l
  All-mono [] f h = tt
  All-mono (s ∷ ss) f (p, h) = (f s p, All-mono ss f h)

  insert-Ascending :
      (s : SolvedProblemInfo) (l : List SolvedProblemInfo)
      → Ascending l
      → Ascending (insert_by_time time s l)
  unfolding insert_by_time
  insert-Ascending s [] h = (tt, tt)
  insert-Ascending s (t ∷ ts) (below, h) =
      elim (Bool-cases (ltb_ℤ (time t.timestamp) (time s.timestamp))) [
        | inl lt ↦ rw lt (insert-All _ s ts (ground arith) below, insert-Ascending s ts h)
        | inr ge ↦
            let le : time s.timestamp ≤ℤ time t.timestamp = ground arith in
            rw ge ((le, All-mono ts (λ u k. omega arith) below), (below, h))
      ]

  pub sorted_solved-Ascending : (l : List SolvedProblemInfo) → Ascending (sorted_solved time l)
  unfolding sorted_solved
  sorted_solved-Ascending [] = tt
  sorted_solved-Ascending (s ∷ ss) =
      insert-Ascending s (sorted_solved time ss) (sorted_solved-Ascending ss)

  pub insert-ne-nil :
      (s : SolvedProblemInfo) (l : List SolvedProblemInfo) → insert_by_time time s l ≢ []
  unfolding insert_by_time
  insert-ne-nil s [] h = cc
  insert-ne-nil s (t ∷ ts) h = ground arith

  Some-insert :
      (P : SolvedProblemInfo → Type 0) (s : SolvedProblemInfo) (l : List SolvedProblemInfo)
      → Some P (insert_by_time time s l)
      → P s ⊎ Some P l
  unfolding insert_by_time
  Some-insert P s [] (inl h) = inl h
  Some-insert P s [] (inr h) = elim h [ ]
  Some-insert P s (t ∷ ts) h = elim (Bool-cases (ltb_ℤ (time t.timestamp) (time s.timestamp))) [
    | inl lt ↦ let k = rw lt at h in skip_one P s t ts k (Some-insert P s ts)
    | inr ge ↦ let k = rw ge at h in k
  ]
    where
      skip_one :
          (P : SolvedProblemInfo → Type 0) (s t : SolvedProblemInfo) (ts : List SolvedProblemInfo)
          → P t ⊎ Some P (insert_by_time time s ts)
          → (Some P (insert_by_time time s ts) → P s ⊎ Some P ts)
          → P s ⊎ (P t ⊎ Some P ts)
      skip_one P s t ts (inl k) f = inr (inl k)
      skip_one P s t ts (inr k) f = elim (f k) [ inl q ↦ inl q | inr q ↦ inr (inr q) ]

  pub Some-sorted_solved :
      (P : SolvedProblemInfo → Type 0) (l : List SolvedProblemInfo)
      → Some P (sorted_solved time l)
      → Some P l
  unfolding sorted_solved
  Some-sorted_solved P [] h = h
  Some-sorted_solved P (s ∷ ss) h = elim (Some-insert P s (sorted_solved time ss) h) [
    | inl p ↦ inl p
    | inr k ↦ inr (Some-sorted_solved P ss k)
  ]
