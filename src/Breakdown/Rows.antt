-- ===== src/Breakdown/Rows.antt =====
-- The rows of the problems: both memos of
-- bsg-frontend/apps/extension/customComponents/RoomDisplays/StatisticsDisplay.tsx tell the same
-- problems as solved.
use bsg.Prelude.{
  Bool, true, false, ◌||◌, Option, none, some, List, [], ◌∷◌, ◌++◌, ◌≡◌, refl, ap, sym, subst, ◌∙◌,
  Text, arith, any, is_some, nonempty, Bool-cases, inl, inr,
}
use bsg.Prelude.Int.{ℤ, pos, negsuc}
use bsg.Board.{Participant}
use bsg.Progress.{SolvedProblemInfo, RoundDetails, RoundProblem, eq_ℤ, solved_of}
use bsg.Breakdown.{
  insert_by_time, sorted_solved, solved_breakdown, from_start, tally, tally_one, Tally, has_id,
  add_id, time_of, set_time, solve_times, problem_time_map, round_breakdown, minutes_text,
  duration_sec,
}

abbrev pub solves : ℤ → SolvedProblemInfo → Bool
solves id s = eq_ℤ s.problem_id id

has_id-append : (id j : ℤ) (ids : List ℤ) → has_id id (ids ++ j ∷ []) ≡ (eq_ℤ j id || has_id id ids)
has_id-append id j [] = ground arith
has_id-append id j (k ∷ ks) = ground (arith, has_id-append id j ks)

eq_of_eq_ℤ : (a b : ℤ) → eq_ℤ a b ≡ true → a ≡ b
eq_of_eq_ℤ (pos m) (pos n) h = ground arith
eq_of_eq_ℤ (negsuc m) (negsuc n) h = ground arith
eq_of_eq_ℤ (pos m) (negsuc n) h = cc
eq_of_eq_ℤ (negsuc m) (pos n) h = cc

has_id-add_id : (id j : ℤ) (ids : List ℤ) → has_id id (add_id j ids) ≡ (eq_ℤ j id || has_id id ids)
has_id-add_id id j ids = elim (Bool-cases (has_id j ids)) [
  | inl old ↦ rw old (known old (eq_ℤ j id) refl)
  | inr new ↦ rw new (has_id-append id j ids)
]
  where
    known :
        has_id j ids ≡ true
        → (b : Bool) → eq_ℤ j id ≡ b
        → has_id id ids ≡ (eq_ℤ j id || has_id id ids)
    known old true e = rw e (subst (λ k. has_id k ids ≡ true) (eq_of_eq_ℤ j id e) old)
    known old false e = rw e refl

is_some-set_time :
    (id j : ℤ) (text : Text) (m : List (ℤ × Text))
    → is_some (time_of id (set_time j text m)) ≡ (eq_ℤ j id || is_some (time_of id m))
is_some-set_time id j text [] = ground arith
is_some-set_time id j text ((k, old) ∷ m) = elim (Bool-cases (eq_ℤ k j)) [
  | inl e ↦ rw e (ground (arith, ap (λ t. eq_ℤ t id) (eq_of_eq_ℤ k j e)))
  | inr e ↦ rw e (ground (arith, is_some-set_time id j text m))
]

module _ (time : Text → ℤ) (id : ℤ) where
  any-insert :
      (s : SolvedProblemInfo) (l : List SolvedProblemInfo)
      → any (solves id) (insert_by_time time s l) ≡ any (solves id) (s ∷ l)
  unfolding insert_by_time
  any-insert s [] = refl
  any-insert s (t ∷ ts) = ground (arith, any-insert s ts)

  any-sorted_solved :
      (l : List SolvedProblemInfo) → any (solves id) (sorted_solved time l) ≡ any (solves id) l
  unfolding sorted_solved
  any-sorted_solved [] = refl
  any-sorted_solved (s ∷ ss) =
      any-insert s (sorted_solved time ss) ∙ ap (λ b. solves id s || b) (any-sorted_solved ss)

  tally-ids :
      (problems : List RoundProblem) (l : List SolvedProblemInfo) (a : Tally)
      → has_id id (tally time problems l a).ids ≡ (any (solves id) l || has_id id a.ids)
  unfolding tally tally_one
  tally-ids problems [] a = refl
  tally-ids problems (s ∷ ss) a = ground (
    arith,
    tally-ids problems ss (tally_one time problems s a),
    has_id-add_id id s.problem_id a.ids,
  )

  is_some-solve_times :
      (l : List SolvedProblemInfo) (last : ℤ) (m : List (ℤ × Text))
      → is_some (time_of id (solve_times time l last m))
        ≡ (any (solves id) l || is_some (time_of id m))
  unfolding solve_times
  is_some-solve_times [] last m = refl
  is_some-solve_times (s ∷ ss) last m =
      let t = time s.timestamp in
      let text = minutes_text (duration_sec last t) in
      ground (
        arith,
        is_some-solve_times ss t (set_time s.problem_id text m),
        is_some-set_time id s.problem_id text m,
      )

  from_solves :
      (d : RoundDetails) (l : List SolvedProblemInfo)
      → is_some (time_of id (solve_times time (sorted_solved time l) (time d.round_start_time) []))
        ≡ has_id id (solved_breakdown time d l).solved_ids
  unfolding solved_breakdown sorted_solved solve_times
  from_solves d [] = refl
  from_solves d (s ∷ ss) =
      let l = sorted_solved time (s ∷ ss) in
      is_some-solve_times l (time d.round_start_time) []
      ∙ sym (tally-ids d.problems l (from_start (time d.round_start_time)))

  -- The rows that have a time are those of the problems that count as solved, whichever player is
  -- selected and whatever the server tells.
  problem_time_map-round_breakdown :
      (player : Option Participant) (details : Option RoundDetails)
      → is_some (time_of id (problem_time_map time player details))
        ≡ has_id id (round_breakdown time player details).solved_ids
  unfolding problem_time_map round_breakdown solved_breakdown
  problem_time_map-round_breakdown none details = refl
  problem_time_map-round_breakdown (some p) none = refl
  problem_time_map-round_breakdown (some p) (some d) =
      elim (Bool-cases (nonempty d.round_start_time)) [
        | inl e ↦ rw e (from_solves d (solved_of p.id d.solved_problems))
        | inr e ↦ rw e refl
      ]
