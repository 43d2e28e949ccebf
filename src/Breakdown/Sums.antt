-- ===== src/Breakdown/Sums.antt =====
-- What the times of a breakdown add up to:
-- bsg-frontend/apps/extension/customComponents/RoomDisplays/StatisticsDisplay.tsx.
use bsg.Prelude.{
  ℕ, ◌+◌, ◌*◌, ◌/◌, ◌≤◌, Option, none, some, List, [], ◌∷◌, ◌≡◌, refl, ap, Text, arith,
  if◌then◌else◌, ◌⊎◌, inl, inr, All,
}
use bsg.Prelude.Int.{ℤ, pos_part, neg_part, ltb_ℤ, ◌+ℤ◌, ◌-ℤ◌, ◌≤ℤ◌, int_laws, eq_of_parts}
use bsg.Wizard.{Level, easy, medium, hard}
use bsg.Progress.{SolvedProblemInfo, RoundDetails, RoundProblem}
use bsg.Breakdown.Sorting.{
  Some, Ascending, sorted_solved-All, All-sorted_solved, sorted_solved-Ascending,
  Some-sorted_solved, insert-ne-nil,
}
use bsg.Breakdown.{
  key_of, difficulty_by_id, sorted_solved, solved_breakdown, from_start, tally, tally_one, Tally,
  ByLevel, add_to, duration_sec, total_text,
}

abbrev pub later : ℤ → ℤ → ℤ
later a b = if ltb_ℤ a b then b else a

-- The instant of the latest solve, and no earlier than the given one.
abbrev pub latest : (Text → ℤ) → ℤ → List SolvedProblemInfo → ℤ
latest time t [] = t
latest time t (s ∷ ss) = latest time (later t (time s.timestamp)) ss

abbrev pub all_values : ByLevel → ℕ
all_values v = v.easy_value + v.medium_value + v.hard_value

all_values-add_to :
    (k : Option Level) (n : ℕ) (v : ByLevel) → all_values (add_to k n v) ≤ all_values v + n
unfolding add_to
all_values-add_to none n v = omega arith
all_values-add_to (some easy) n v = omega arith
all_values-add_to (some medium) n v = omega arith
all_values-add_to (some hard) n v = omega arith

-- Two spans that meet make one.
span_add : (a b c : ℤ) → a ≤ℤ b → b ≤ℤ c → pos_part (b -ℤ a) + pos_part (c -ℤ b) ≡ pos_part (c -ℤ a)
unfolding ◌-ℤ◌
span_add a b c h k = ground arith

module _ (time : Text → ℤ) where
  -- The total telescopes.
  tally-total :
      (problems : List RoundProblem) (l : List SolvedProblemInfo) (a : Tally)
      → (tally time problems l a).total_ms +ℤ a.last_time
        ≡ a.total_ms +ℤ (tally time problems l a).last_time
  unfolding tally tally_one
  tally-total problems [] a = refl
  tally-total problems (s ∷ ss) a =
      let rest = tally-total problems ss (tally_one time problems s a) in
      omega (int_laws, ap pos_part rest, ap neg_part rest)

  -- Through ascending solves, the instant that is kept last is the latest.
  tally-latest :
      (problems : List RoundProblem) (l : List SolvedProblemInfo) (a : Tally)
      → Ascending time l
      → All (λ s. a.last_time ≤ℤ time s.timestamp) l
      → (a.last_time ≤ℤ (tally time problems l a).last_time)
        × All (λ s. time s.timestamp ≤ℤ (tally time problems l a).last_time) l
  unfolding tally tally_one
  tally-latest problems [] a h k = (omega arith, tt)
  tally-latest problems (s ∷ ss) a (below, h) (first, k) =
      let (p, q) = tally-latest problems ss (tally_one time problems s a) h below in
      (omega arith, (p, q))

  tally-le-last :
      (problems : List RoundProblem) (l : List SolvedProblemInfo) (a : Tally)
      → Ascending time l
      → All (λ s. time s.timestamp ≤ℤ (tally time problems l a).last_time) l
  unfolding tally tally_one
  tally-le-last problems [] a h = tt
  tally-le-last problems (s ∷ ss) a (below, h) =
      tally-latest problems ss (tally_one time problems s a) h below

  -- The instant that is kept last is that of a solve, if there is one.
  tally-Some :
      (problems : List RoundProblem) (l : List SolvedProblemInfo) (a : Tally)
      → ((l ≡ []) × ((tally time problems l a).last_time ≡ a.last_time))
        ⊎ Some (λ s. (tally time problems l a).last_time ≡ time s.timestamp) l
  unfolding tally tally_one
  tally-Some problems [] a = inl (refl, refl)
  tally-Some problems (s ∷ ss) a = elim (tally-Some problems ss (tally_one time problems s a)) [
    | inl (_, e) ↦ inr (inl e)
    | inr k ↦ inr (inr k)
  ]

  -- What bounds the latest, and what it bounds.
  latest-le :
      (t b : ℤ) (l : List SolvedProblemInfo)
      → t ≤ℤ b
      → All (λ s. time s.timestamp ≤ℤ b) l
      → latest time t l ≤ℤ b
  latest-le t b [] h k = h
  latest-le t b (s ∷ ss) h (p, k) = latest-le (later t (time s.timestamp)) b ss (ground arith) k

  le-latest : (t : ℤ) (l : List SolvedProblemInfo) → t ≤ℤ latest time t l
  le-latest t [] = omega arith
  le-latest t (s ∷ ss) =
      let up : t ≤ℤ later t (time s.timestamp) = ground arith in
      omega (arith, le-latest (later t (time s.timestamp)) ss)

  Some-le-latest :
      (t b : ℤ) (l : List SolvedProblemInfo)
      → Some (λ s. b ≡ time s.timestamp) l
      → b ≤ℤ latest time t l
  Some-le-latest t b [] h = elim h [ ]
  Some-le-latest t b (s ∷ ss) (inl e) =
      let up : b ≤ℤ later t (time s.timestamp) = ground arith in
      omega (arith, le-latest (later t (time s.timestamp)) ss)
  Some-le-latest t b (s ∷ ss) (inr k) = Some-le-latest (later t (time s.timestamp)) b ss k

  -- The last instant of the loop is that of the latest solve.
  tally-last_time :
      (problems : List RoundProblem) (s : SolvedProblemInfo) (ss : List SolvedProblemInfo)
      (a : Tally)
      → (tally time problems (sorted_solved time (s ∷ ss)) a).last_time
        ≡ latest time (time s.timestamp) ss
  unfolding sorted_solved
  tally-last_time problems s ss a =
      let l = sorted_solved time (s ∷ ss) in
      let final = (tally time problems l a).last_time in
      let bounds =
        All-sorted_solved time (λ t. time t.timestamp ≤ℤ final) (s ∷ ss)
          (tally-le-last problems l a (sorted_solved-Ascending time (s ∷ ss))) in
      let below : latest time (time s.timestamp) ss ≤ℤ final =
        latest-le (time s.timestamp) final ss bounds.0 bounds.1 in
      elim (tally-Some problems l a) [
        | inl (empty, _) ↦ absurd (insert-ne-nil time s (sorted_solved time ss) empty)
        | inr k ↦
            let above : final ≤ℤ latest time (time s.timestamp) ss =
              elim (Some-sorted_solved time (λ t. final ≡ time t.timestamp) (s ∷ ss) k) [
                | inl e ↦ rw e (le-latest (time s.timestamp) ss)
                | inr q ↦ Some-le-latest (time s.timestamp) final ss q
              ] in
            eq_of_parts final (latest time (time s.timestamp) ss) (omega arith)
      ]

  -- The total time that is shown for a player who solved something is that from the round's start to
  -- the player's latest solve, wherever it stands in the server's list, in whole seconds, or a dash
  -- where that is not positive.
  pub solved_breakdown-total :
      (d : RoundDetails) (s : SolvedProblemInfo) (ss : List SolvedProblemInfo)
      → (solved_breakdown time d (s ∷ ss)).total_time_str
        ≡ total_text (latest time (time s.timestamp) ss -ℤ time d.round_start_time)
  unfolding solved_breakdown
  solved_breakdown-total d s ss =
      let a = from_start (time d.round_start_time) in
      let total = tally-total d.problems (sorted_solved time (s ∷ ss)) a in
      let last = tally-last_time d.problems s ss a in
      ap total_text (
        eq_of_parts _ (latest time (time s.timestamp) ss -ℤ time d.round_start_time) (
          omega
            (int_laws, ap pos_part total, ap neg_part total, ap pos_part last, ap neg_part last)))

  tally-spent :
      (problems : List RoundProblem) (l : List SolvedProblemInfo) (a : Tally)
      → Ascending time l
      → All (λ s. a.last_time ≤ℤ time s.timestamp) l
      → 1000 * all_values (tally time problems l a).time_diff
        ≤ 1000 * all_values a.time_diff
          + pos_part ((tally time problems l a).last_time -ℤ a.last_time)
  unfolding tally tally_one duration_sec
  tally-spent problems [] a h k = omega arith
  tally-spent problems (s ∷ ss) a (below, h) (first, k) =
      let a' = tally_one time problems s a in
      let final = (tally time problems ss a').last_time in
      let rest = tally-spent problems ss a' h below in
      let up = (tally-latest problems ss a' h below).0 in
      let one =
        all_values-add_to (key_of (difficulty_by_id s.problem_id problems))
          (pos_part (time s.timestamp -ℤ a.last_time) / 1000) a.time_diff in
      let whole = span_add a.last_time (time s.timestamp) final first up in omega arith

  -- Where no solve is before the round's start, the seconds that the three difficulties are shown with
  -- are together no more than those from the start to the latest solve.
  solved_breakdown-spent :
      (d : RoundDetails) (s : SolvedProblemInfo) (ss : List SolvedProblemInfo)
      → All (λ t. time d.round_start_time ≤ℤ time t.timestamp) (s ∷ ss)
      → all_values (solved_breakdown time d (s ∷ ss)).time_per_difficulty
        ≤ pos_part (latest time (time s.timestamp) ss -ℤ time d.round_start_time) / 1000
  unfolding solved_breakdown
  solved_breakdown-spent d s ss h =
      let a = from_start (time d.round_start_time) in
      let last = tally-last_time d.problems s ss a in
      let spent =
        tally-spent d.problems (sorted_solved time (s ∷ ss)) a
          (sorted_solved-Ascending time (s ∷ ss)) (sorted_solved-All time _ (s ∷ ss) h) in
      let same = ap (λ t. pos_part (t -ℤ time d.round_start_time)) last in omega arith
