-- ===== src/Worker/Submissions/InTurn.antt =====
-- Submissions that arrive one after the other, each callback before the next message, and two that
-- arrive at once: bsg-frontend/extension/background.js.
use bsg.Prelude.{
  pick, ℕ, suc, ◌+◌, ◌≤◌, true, false, ◌&&◌, some, List, [], ◌∷◌, ◌≡◌, inl, inr, refl, sym, subst,
  ap, arith, Text, codes, or_else, text_eq, text_eq_refl, eq_of_text_eq, nonempty, Bool-cases,
  Option-cases, length,
}
use bsg.Prelude.Int.{ℤ}
use bsg.Prelude.Json.{truthy, is_str}
use bsg.Worker.Submissions.{
  Submission, Verdict, Pending, find, remove, submission_key, verdict_key, for_submission,
  for_verdict, WorkerState, Message, submission_pending, submission_result, receive, ttl_exceeded,
  process_verdict, finish, finish_picked, Step, message, callback, step, run, fresh,
}

-- Each message, with the instant of its callback.
abbrev pub in_turn : List (Message × ℤ) → List Step
in_turn [] = []
in_turn ((m, now) ∷ ms) = message m ∷ callback 0 now ∷ in_turn ms

abbrev pub announcements : List (Message × ℤ) → ℕ
announcements [] = 0
announcements ((submission_pending s, now) ∷ ms) = suc (announcements ms)
announcements ((submission_result v, now) ∷ ms) = announcements ms

-- The posts so far and the submissions that may still be posted.
abbrev due : WorkerState → ℕ
due w = length w.posts + length (or_else w.pending_submissions [])

length-remove : (k : Text) (ps : Pending) → length (remove k ps) ≤ length ps
length-remove k [] = omega arith
length-remove k ((j, s) ∷ ps) = ground (arith, length-remove k ps)

length-remove-found :
    (k : Text) (ps : Pending) (s : Submission)
    → find k ps ≡ some s
    → suc (length (remove k ps)) ≤ length ps
length-remove-found k [] s h = absurd cc
length-remove-found k ((j, t) ∷ ps) s h =
    ground (arith, length-remove k ps, length-remove-found k ps s)

verdict_due :
    (now : ℤ) (v : Verdict) (w : WorkerState)
    → (due (finish now (for_verdict v (or_else w.pending_submissions []) w.round_end_time) w)
        ≤ due w)
      × ((finish now (for_verdict v (or_else w.pending_submissions []) w.round_end_time) w).reads
          ≡ w.reads)
unfolding finish process_verdict
verdict_due now v w =
    let ps = or_else w.pending_submissions [] in
    elim (Option-cases (find (verdict_key v) ps)) [
      | inl e ↦ rw e (omega arith, refl)
      | inr (s, e) ↦ elim (Bool-cases (is_str v.status_msg (codes "Accepted"))) [
        | inl good ↦ elim (Bool-cases (ttl_exceeded now w.round_end_time)) [
          | inl late ↦
              rw (e, good, late) (omega (arith, length-remove-found (verdict_key v) ps s e), refl)
          | inr ahead ↦
              rw (e, good, ahead) (omega (arith, length-remove-found (verdict_key v) ps s e), refl)
        ]
        | inr bad ↦ rw (e, bad) (omega (arith, length-remove-found (verdict_key v) ps s e), refl)
      ]
    ]

pending_due :
    (now : ℤ) (s : Submission) (w : WorkerState)
    → due (finish now (for_submission s (or_else w.pending_submissions [])) w) ≤ suc (due w)
unfolding finish
pending_due now s w =
    omega (arith, length-remove (submission_key s) (or_else w.pending_submissions []))

unannounced :
    (now : ℤ) (s : Submission) (w : WorkerState)
    → w.reads ≡ []
    → (truthy s.submission_id && nonempty s.problem_slug) ≡ false
    → step (callback 0 now) (step (message (submission_pending s)) w) ≡ w
unfolding step receive
unannounced now s w h e = rw e (ap (λ rs. finish_picked now (pick 0 rs) w) h)

turn_due :
    (ms : List (Message × ℤ)) (w : WorkerState)
    → w.reads ≡ []
    → due (run (in_turn ms) w) ≤ due w + announcements ms
unfolding run step receive
turn_due [] w h = omega arith
turn_due ((submission_pending s, now) ∷ ms) w h =
    elim (Bool-cases (truthy s.submission_id && nonempty s.problem_slug)) [
      | inl e ↦
          let w₁ = finish now (for_submission s (or_else w.pending_submissions [])) w in
          rw (run, e) (omega (arith, turn_due ms w₁ h, pending_due now s w))
      | inr e ↦
          subst (λ u. due (run (in_turn ms) u) ≤ due w + suc (announcements ms))
            (sym (unannounced now s w h e)) (omega (arith, turn_due ms w h))
    ]
turn_due ((submission_result v, now) ∷ ms) w h =
    let (fewer, same) = verdict_due now v w in
    omega (
      arith,
      turn_due ms (finish now (for_verdict v (or_else w.pending_submissions []) w.round_end_time) w)
          (rw same h),
      fewer,
    )

in_turn-posts : (ms : List (Message × ℤ)) → length (run (in_turn ms) fresh).posts ≤ announcements ms
in_turn-posts ms = omega (arith, turn_due ms fresh refl)

-- Two submissions whose reads both come before the first callback.
abbrev pub at_once : Submission → Submission → ℤ → ℤ → List Step
at_once s t now later =
    message (submission_pending s)
    ∷ message (submission_pending t)
    ∷ callback 1 now
    ∷ callback 0 later
    ∷ []

find-remove : (k j : Text) (ps : Pending) → text_eq j k ≡ false → find k (remove j ps) ≡ find k ps
find-remove k j [] h = refl
find-remove k j ((i, s) ∷ ps) h = ground (arith, find-remove k j ps h, eq_of_text_eq i j)

-- Of two submissions with different ids whose reads both come before the first callback, the
-- second is pending afterwards and the first is not recorded, so what was pending under its id
-- stays.
pub at_once-lost :
    (s t : Submission) (now later : ℤ) (w : WorkerState)
    → (truthy s.submission_id && nonempty s.problem_slug) ≡ true
    → (truthy t.submission_id && nonempty t.problem_slug) ≡ true
    → text_eq (submission_key t) (submission_key s) ≡ false
    → let after = or_else (run (at_once s t now later) w).pending_submissions [] in
      (find (submission_key s) after ≡ find (submission_key s) (or_else w.pending_submissions []))
      × (find (submission_key t) after ≡ some t)
unfolding run step receive finish
at_once-lost s t now later w hs ht ne =
    let before = or_else w.pending_submissions [] in
    let kept = find-remove (submission_key s) (submission_key t) before ne in
    let self = text_eq_refl (submission_key t) in rw (hs, ht, ne, kept, self) (refl, refl)
