-- ===== src/Worker/Submissions/Earned.antt =====
-- Where the posts of bsg-frontend/extension/background.js come from, over every interleaving of
-- messages and callbacks.
use bsg.Prelude.{
  pick-cases, All-pick, Bool, true, false, Option, some, List, [], ◌∷◌, ◌≡◌, ◌⊎◌, inl, inr, refl,
  subst, sym, ◌&&◌, nonempty, ◌∙◌, arith, ◌++◌, ℕ, ap, if◌then◌else◌, Text, codes, or_else, text_eq,
  eq_of_text_eq, All, Bool-cases, Option-cases,
}
use bsg.Prelude.Int.{ℤ, Number}
use bsg.Prelude.Json.{truthy, is_str}
use mathlib.Core.List.{append_assoc, append-nil}
use bsg.Worker.Submissions.{
  Submission, Verdict, Post, Pending, find, remove, submission_key, verdict_key, Read,
  for_submission, for_verdict, WorkerState, Message, submission_pending, submission_result, receive,
  ttl_exceeded, post_of, save, send_post, process_verdict, finish, Step, message, callback,
  set_round_end, logged_out, step, run, fresh,
}

if_both : {A : Type 0} (P : A → Type 0) (b : Bool) (x y : A) → P x → P y → P (if b then x else y)
if_both P true x y p q = p
if_both P false x y p q = q

-- A step that is among the steps.
abbrev pub In : Step → List Step → Type 0
In x [] = ⊥
In x (y ∷ ys) = (x ≡ y) ⊎ In x ys

-- Among the steps, one that was taken in a state.
abbrev pub At : Step → WorkerState → List Step → Type 0
At x w xs =
    (before : List Step) × (after : List Step) × (xs ≡ before ++ x ∷ after) × (run before fresh ≡ w)

-- The verdict came when the round's end that the storage held was the one given.
abbrev pub JudgedBefore : Verdict → Option Number → List Step → Type 0
JudgedBefore v end_time xs =
    (before : List Step) × (after : List Step) × (xs
      ≡ before ++ message (submission_result v) ∷ after)
    × ((run before fresh).round_end_time ≡ end_time)

-- A post that was earned in the course of some steps.
pub record Earned (xs : List Step) (p : Post) : Type 0 where
  pub submission : Submission
  pub verdict : Verdict
  pub end_time : Option Number
  -- the place of the callback among the open ones
  pub place : ℕ
  pub announced : In (message (submission_pending submission)) xs
  pub judged : JudgedBefore verdict end_time xs
  pub called : In (callback place p.checked_at) xs
  pub same_id : verdict_key verdict ≡ submission_key submission
  pub accepted : is_str verdict.status_msg (codes "Accepted") ≡ true
  pub in_time : ttl_exceeded p.checked_at end_time ≡ false
  pub contents : p ≡ post_of p.checked_at submission verdict

In-append : (x : Step) (before after : List Step) → In x (before ++ x ∷ after)
In-append x [] after = inl refl
In-append x (y ∷ before) after = inr (In-append x before after)

At-In : (xs : List Step) (x : Step) (w : WorkerState) → At x w xs → In x xs
At-In xs x w (before, after, e, same) = rw e (In-append x before after)

run-snoc : (xs : List Step) (y : Step) (w : WorkerState) → run (xs ++ y ∷ []) w ≡ step y (run xs w)
unfolding run
run-snoc [] y w = refl
run-snoc (x ∷ xs) y w = run-snoc xs y (step x w)

module _ (xs : List Step) where
  -- An entry of the pending submissions, under the key of a submission that was announced.
  abbrev IsAnnounced : (Text × Submission) → Type 0
  IsAnnounced (k, s) = (k ≡ submission_key s) × In (message (submission_pending s)) xs

  abbrev IsSound : Read → Type 0
  IsSound (for_submission s ps) = In (message (submission_pending s)) xs × All IsAnnounced ps
  IsSound (for_verdict v ps t) = JudgedBefore v t xs × All IsAnnounced ps

  pub record Honest (w : WorkerState) : Type 0 where
    pub pending : All IsAnnounced (or_else w.pending_submissions [])
    pub reads : All IsSound w.reads
    pub posts : All (Earned xs) w.posts

  find-IsAnnounced :
      (k : Text) (s : Submission) (ps : Pending)
      → All IsAnnounced ps
      → find k ps ≡ some s
      → (k ≡ submission_key s) × In (message (submission_pending s)) xs
  find-IsAnnounced k s [] h e = absurd cc
  find-IsAnnounced k s ((j, t) ∷ ps) ((a, b), h) e = elim (Bool-cases (text_eq j k)) [
    | inl q ↦
        let same : t ≡ s = ground arith in
        subst (λ u. (k ≡ submission_key u) × In (message (submission_pending u)) xs) same
          (sym (eq_of_text_eq j k q) ∙ a, b)
    | inr q ↦ find-IsAnnounced k s ps h (ground arith)
  ]

  remove-IsAnnounced :
      (k : Text) (ps : Pending) → All IsAnnounced ps → All IsAnnounced (remove k ps)
  remove-IsAnnounced k [] h = tt
  remove-IsAnnounced k ((j, s) ∷ ps) (a, h) =
      if_both (All IsAnnounced) (text_eq j k) (remove k ps) ((j, s) ∷ remove k ps)
        (remove-IsAnnounced k ps h) (a, remove-IsAnnounced k ps h)

  receive-Honest :
      (m : Message) (w : WorkerState) → At (message m) w xs → Honest w → Honest (receive m w)
  unfolding receive
  receive-Honest (submission_pending s) w i h =
      if_both Honest (truthy s.submission_id && nonempty s.problem_slug)
        record w { reads = for_submission s (or_else w.pending_submissions []) ∷ w.reads } w
        record {
          pending = h.pending;
          reads = ((At-In xs (message (submission_pending s)) w i, h.pending), h.reads);
          posts = h.posts;
        }
        h
  receive-Honest (submission_result v) w (before, after, e, same) h = record {
    pending = h.pending;
    reads = (((before, after, e, ap (λ u. u.round_end_time) same), h.pending), h.reads);
    posts = h.posts;
  }

  save-Honest :
      (ps : Pending) (w : WorkerState) → All IsAnnounced ps → Honest w → Honest (save ps w)
  save-Honest ps w a h = record { pending = a; reads = h.reads; posts = h.posts }

  send_post-Honest : (p : Post) (w : WorkerState) → Earned xs p → Honest w → Honest (send_post p w)
  send_post-Honest p w e h = record { pending = h.pending; reads = h.reads; posts = (e, h.posts) }

  process_verdict-Honest :
      (place : ℕ) (now : ℤ) (v : Verdict) (ps : Pending) (t : Option Number) (s : Submission)
      (w : WorkerState)
      → In (callback place now) xs
      → IsSound (for_verdict v ps t)
      → find (verdict_key v) ps ≡ some s
      → Honest w
      → Honest (process_verdict now v ps t s w)
  unfolding process_verdict
  process_verdict-Honest place now v ps t s w c (i, a) e h =
      let (same, announced) = find-IsAnnounced (verdict_key v) s ps a e in
      let key = verdict_key v in
      let cleaned : (u : WorkerState) → Honest u → Honest (save (remove (verdict_key v) ps) u) =
        λ u k. save-Honest (remove key ps) u (remove-IsAnnounced key ps a) k in
      elim (Bool-cases (is_str v.status_msg (codes "Accepted"))) [
        | inl good ↦ elim (Bool-cases (ttl_exceeded now t)) [
          | inl late ↦ rw (good, late) (cleaned w h)
          | inr ahead ↦
              rw (good, ahead)
                (cleaned (send_post (post_of now s v) w) (
                  send_post-Honest (post_of now s v) w
                    record {
                      submission = s;
                      verdict = v;
                      end_time = t;
                      place = place;
                      announced = announced;
                      judged = i;
                      called = c;
                      same_id = same;
                      accepted = good;
                      in_time = ahead;
                      contents = refl;
                    }
                    h))
        ]
        | inr bad ↦ rw bad (cleaned w h)
      ]

  finish-Honest :
      (place : ℕ) (now : ℤ) (r : Read) (w : WorkerState)
      → In (callback place now) xs
      → IsSound r
      → Honest w
      → Honest (finish now r w)
  unfolding finish
  finish-Honest place now (for_submission s ps) w c (i, a) h = record {
    pending = ((refl, i), remove-IsAnnounced (submission_key s) ps a);
    reads = h.reads;
    posts = h.posts;
  }
  finish-Honest place now (for_verdict v ps t) w c i h =
      elim (Option-cases (find (verdict_key v) ps)) [
        | inl e ↦ rw e h
        | inr (s, e) ↦ rw e (process_verdict-Honest place now v ps t s w c i e h)
      ]

  step-Honest : (x : Step) (w : WorkerState) → At x w xs → Honest w → Honest (step x w)
  unfolding step
  step-Honest (message m) w i h = receive-Honest m w i h
  step-Honest (callback n now) w i h = elim (pick-cases n w.reads) [
    | inl e ↦ rw e h
    | inr (r, rest, e) ↦
        let (sound, others) = All-pick IsSound n w.reads r rest h.reads e in
        rw e (
          finish-Honest n now r record w { reads = rest } (At-In xs (callback n now) w i) sound
            record { pending = h.pending; reads = others; posts = h.posts })
  ]
  step-Honest (set_round_end t) w i h = record {
    pending = h.pending;
    reads = h.reads;
    posts = h.posts;
  }
  step-Honest logged_out w i h = record { pending = tt; reads = h.reads; posts = h.posts }

  run-Honest :
      (done ys : List Step) → xs ≡ done ++ ys → Honest (run done fresh) → Honest (run xs fresh)
  run-Honest done [] e h = subst (λ ys. Honest (run ys fresh)) (sym (e ∙ append-nil done)) h
  run-Honest done (y ∷ ys) e h =
      run-Honest (done ++ y ∷ []) ys (e ∙ sym (append_assoc done (y ∷ []) ys))
        (rw (run-snoc done y fresh) (step-Honest y (run done fresh) (done, ys, e, refl) h))

-- Every post was earned: LeetCode accepted a submission that the page had announced under the same
-- id; and the round's end that the storage held when the verdict came, if any, was not past at the
-- instant of the callback in which the worker checked it and handed the request over. The request
-- itself waits for the configuration, and so may leave later.
pub run-Earned : (xs : List Step) → All (Earned xs) (run xs fresh).posts
unfolding run
run-Earned xs =
    let start : Honest xs fresh = record { pending = tt; reads = tt; posts = tt } in
    (run-Honest xs [] xs refl start).posts
