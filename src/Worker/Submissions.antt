-- ===== src/Worker/Submissions.antt =====
-- Submissions to LeetCode on their way to the server: the listener's branches SUBMISSION_PENDING and
-- SUBMISSION_RESULT of bsg-frontend/extension/background.js. Each first reads `chrome.storage.local`
-- and carries on in a callback: between the two, other messages may be handled. Keys of an object
-- are texts; its built-in properties are not modelled.
pub mod Intercept
pub mod Earned
pub mod InTurn
use bsg.Prelude.{
  pick, ℕ, zero, suc, Bool, true, false, ◌&&◌, ◌||◌, not, Option, none, some, List, [], ◌∷◌,
  if◌then◌else◌, Text, codes, or_else, text_eq, nonempty,
}
use bsg.Prelude.Int.{ℤ, Number, finite, num_lt, num_truthy}
use bsg.Prelude.Json.{Json, truthy, is_str, json_text}

-- The payload of BSG_LEETCODE_SUBMISSION.
pub record Submission : Type 0 where
  pub submission_id : Json
  pub problem_slug : Text
  pub lang : Json
  pub typed_code : Json

-- The fields of the payload of BSG_LEETCODE_RESULT that the worker reads.
pub record Verdict : Type 0 where
  pub submission_id : Option Text
  pub status_msg : Json
  pub elapsed_time : Json
  pub memory_percentile : Json

-- The body of a request to /submission, with the instant at which the worker checks the round's end
-- and hands the request over: it leaves once the configuration is there.
pub record Post : Type 0 where
  pub slug : Text
  pub code : Json
  pub language : Json
  pub runtime : Json
  pub memory : Json
  pub checked_at : ℤ

abbrev pub Pending : Type 0
Pending = List (Text × Submission)

-- pending[k]
abbrev pub find : Text → Pending → Option Submission
find k [] = none
find k ((j, s) ∷ ps) = if text_eq j k then some s else find k ps

-- delete pending[k]
abbrev pub remove : Text → Pending → Pending
remove k [] = []
remove k ((j, s) ∷ ps) = if text_eq j k then remove k ps else (j, s) ∷ remove k ps

-- pending[k] = s
abbrev pub insert : Text → Submission → Pending → Pending
insert k s ps = (k, s) ∷ remove k ps

-- `pending[submissionId]`: the key is the value's text.
abbrev pub submission_key : Submission → Text
submission_key s = json_text s.submission_id

abbrev pub verdict_key : Verdict → Text
verdict_key v = or_else v.submission_id (codes "undefined")

-- A read of the storage whose callback has not run yet, with what it found.
pub data Read : Type 0 where
  for_submission : Submission → Pending → Read
  for_verdict : Verdict → Pending → Option Number → Read

pub record WorkerState : Type 0 where
  pub pending_submissions : Option Pending
  pub round_end_time : Option Number
  pub reads : List Read
  pub posts : List Post

pub data Message : Type 0 where
  submission_pending : Submission → Message
  submission_result : Verdict → Message

unfoldable pub receive : Message → WorkerState → WorkerState
receive (submission_pending s) w =
    if truthy s.submission_id && nonempty s.problem_slug
    then record w { reads = for_submission s (or_else w.pending_submissions []) ∷ w.reads }
    else w
receive (submission_result v) w = record w {
  reads = for_verdict v (or_else w.pending_submissions []) w.round_end_time ∷ w.reads;
}

abbrev pub save : Pending → WorkerState → WorkerState
save ps w = record w { pending_submissions = some ps }

-- roundEndTime && Date.now() > roundEndTime
abbrev pub ttl_exceeded : ℤ → Option Number → Bool
ttl_exceeded now none = false
ttl_exceeded now (some t) = num_truthy t && num_lt t (finite now)

abbrev pub post_of : ℤ → Submission → Verdict → Post
post_of now s v = record {
  slug = s.problem_slug;
  code = s.typed_code;
  language = s.lang;
  runtime = v.elapsed_time;
  memory = v.memory_percentile;
  checked_at = now;
}

abbrev pub send_post : Post → WorkerState → WorkerState
send_post p w = record w { posts = p ∷ w.posts }

unfoldable pub process_verdict :
    ℤ → Verdict → Pending → Option Number → Submission → WorkerState → WorkerState
process_verdict now v ps end_time s w =
    let cleaned = save (remove (verdict_key v) ps) in
    if is_str v.status_msg (codes "Accepted")
    then (if ttl_exceeded now end_time then cleaned w else cleaned (send_post (post_of now s v) w))
    else cleaned w

abbrev on_found :
    (Submission → WorkerState → WorkerState) → Option Submission → WorkerState → WorkerState
on_found f none w = w
on_found f (some s) w = f s w

unfoldable pub finish : ℤ → Read → WorkerState → WorkerState
unfolding process_verdict
finish now (for_submission s ps) w = save (insert (submission_key s) s ps) w
finish now (for_verdict v ps end_time) w =
    on_found (process_verdict now v ps end_time) (find (verdict_key v) ps) w

-- What happens to the worker: a message, a callback of an open read, a write of the round's end by
-- the panel, and the LOGOUT branch's removal of the keys.
pub data Step : Type 0 where
  message : Message → Step
  callback : ℕ → ℤ → Step
  set_round_end : Option Number → Step
  logged_out : Step

abbrev pub finish_picked : ℤ → Option (Read × List Read) → WorkerState → WorkerState
finish_picked now none w = w
finish_picked now (some (r, rs)) w = finish now r record w { reads = rs }

unfoldable pub step : Step → WorkerState → WorkerState
unfolding receive finish
step (message m) w = receive m w
step (callback i now) w = finish_picked now (pick i w.reads) w
step (set_round_end t) w = record w { round_end_time = t }
step logged_out w = record w { pending_submissions = none; round_end_time = none }

unfoldable pub run : List Step → WorkerState → WorkerState
run [] w = w
run (x ∷ xs) w = run xs (step x w)

-- A worker that nothing has been sent to.
abbrev pub fresh : WorkerState
fresh = record { pending_submissions = none; round_end_time = none; reads = []; posts = [] }
