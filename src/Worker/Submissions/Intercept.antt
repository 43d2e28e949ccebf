-- ===== src/Worker/Submissions/Intercept.antt =====
-- The wrapped `fetch` of LeetCode's page, bsg-frontend/extension/injected.js, whose messages
-- bsg-frontend/extension/contentScript.js passes on to the worker. What `JSON.parse` makes of a
-- request's body is a parameter.
pub mod Posted
use bsg.Prelude.{
  ℕ, zero, suc, Bool, true, false, ◌&&◌, not, Option, none, some, List, [], ◌∷◌, ◌++◌, ◌==◌,
  if◌then◌else◌, Text, codes, or_else, strip_prefix, starts_with, includes, split_on, get_elem?,
  nonempty,
}
use bsg.Prelude.Options.{◌>>=◌}
use bsg.Prelude.Json.{Json, undefined, obj, end, get, is_str}
use bsg.Worker.Submissions.{Submission, Verdict, Message, submission_pending, submission_result}

-- [^\/]+, as far as it goes, and what is left
abbrev pub until_slash : Text → Text × Text
until_slash [] = ([], [])
until_slash (c ∷ s) = if c == b'/' then ([], c ∷ s) else (c ∷ (until_slash s).0, (until_slash s).1)

abbrev pub group_of : Text × Text → Option Text
group_of (slug, rest) =
    if nonempty slug && starts_with (codes "/submit") rest then some slug else none

abbrev in_match : Option Text → Option Text
in_match none = none
in_match (some s) = group_of (until_slash s)

-- The pattern `problems\/([^\/]+)\/submit` at the start of a text: its group.
abbrev pub submit_here : Text → Option Text
submit_here s = in_match (strip_prefix (codes "problems/") s)

-- url.match(...)?.[1]: that of the leftmost match.
unfoldable pub submit_slug : Text → Option Text
submit_slug [] = none
submit_slug (c ∷ s) = elim (submit_here (c ∷ s)) [ some slug ↦ some slug | none ↦ submit_slug s ]

module _ (parse : Text → Option Json) where
  -- options.body ? JSON.parse(options.body) : {}
  abbrev pub request_body : Option Text → Option Json
  request_body none = some (obj end)
  request_body (some []) = some (obj end)
  request_body (some (c ∷ s)) = parse (c ∷ s)

  -- The promise of the response's JSON; `none` where it, or a read of it, is rejected.
  abbrev pub on_submit : Text → Option Json → Option Text → Option Message
  on_submit url reply options = do
    data_value ← reply
    body ← request_body options
    id ← get data_value (codes "submission_id")
    lang ← get body (codes "lang")
    code ← get body (codes "typed_code")
    some (
        submission_pending record {
          submission_id = id;
          problem_slug = or_else (submit_slug url) [];
          lang = lang;
          typed_code = code;
        })

abbrev pub verdict_of : Text → Json → Option Message
verdict_of url v = do
  status ← get v (codes "status_msg")
  memory ← get v (codes "memory_percentile")
  time ← get v (codes "elapsed_time")
  some (
      submission_result record {
        submission_id = get_elem? (split_on b'/' url) 3;
        status_msg = status;
        elapsed_time = time;
        memory_percentile = memory;
      })

abbrev pub on_check : Text → Option Json → Option Message
on_check url reply = do
  v ← reply
  state ← get v (codes "state")
  if is_str state (codes "SUCCESS") then verdict_of url v else none

abbrev pub posted : Bool → Option Message → List Message
posted true (some m) = m ∷ []
posted asked m = []

-- What the page posts about one request.
unfoldable pub intercept : (Text → Option Json) → Text → Option Json → Option Text → List Message
intercept parse url reply options =
    posted (includes (codes "/submit/") url) (on_submit parse url reply options)
    ++ posted (includes (codes "/check/") url) (on_check url reply)
