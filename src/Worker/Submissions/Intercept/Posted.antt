-- ===== src/Worker/Submissions/Intercept/Posted.antt =====
-- A submission from the page of bsg-frontend/extension/injected.js to the request of
-- bsg-frontend/extension/background.js.
use bsg.Prelude.{ℕ, false, Option, none, some, List, ◌++◌, ◌==◌, ◌≡◌, Text, codes, All}
use bsg.Prelude.Int.{pos}
use bsg.Prelude.Decimal.{natural_text}
use bsg.Prelude.Json.{Json, obj, end, field, num, str}
use bsg.Worker.Submissions.{Submission, Verdict, Message}
use bsg.Worker.Submissions.Intercept.{intercept}

-- A text with no slash.
abbrev pub IsPathPart : Text → Type 0
IsPathPart s = All (λ c. (c == b'/') ≡ false) s

abbrev pub submit_url : Text → Text
submit_url slug = codes "/problems/" ++ (slug ++ codes "/submit/")

abbrev pub check_url : Text → Text
check_url id = codes "/submissions/detail/" ++ (id ++ codes "/check/")

-- What LeetCode answers to a submission, and to a check of one that was accepted.
abbrev pub submit_reply : ℕ → Json
submit_reply n = obj (field (codes "submission_id") (num (pos n)) end)

abbrev pub accepted_reply : Json → Json → Json
accepted_reply time memory = obj (
    field (codes "state") (str (codes "SUCCESS")) (
      field (codes "status_msg") (str (codes "Accepted"))
        (field (codes "elapsed_time") time (field (codes "memory_percentile") memory end))))

abbrev pub submit_options : Json → Json → Json → Json
submit_options lang question code = obj (
    field (codes "lang") lang
      (field (codes "question_id") question (field (codes "typed_code") code end)))

-- The page's two requests about a submission.
abbrev pub page_messages : (Text → Option Json) → Text → Text → ℕ → Json → Json → List Message
page_messages parse slug options n time memory =
    intercept parse (submit_url slug) (some (submit_reply n)) (some options)
    ++ intercept parse (check_url (natural_text n)) (some (accepted_reply time memory)) none

abbrev pub page_submission : Text → ℕ → Json → Json → Submission
page_submission slug n lang code = record {
  submission_id = num (pos n);
  problem_slug = slug;
  lang = lang;
  typed_code = code;
}

abbrev pub page_verdict : ℕ → Json → Json → Verdict
page_verdict n time memory = record {
  submission_id = some (natural_text n);
  status_msg = str (codes "Accepted");
  elapsed_time = time;
  memory_percentile = memory;
}
