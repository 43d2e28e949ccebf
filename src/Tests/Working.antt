-- ===== src/Tests/Working.antt =====
-- Tests of the background worker and of the page's scripts: bsg-frontend/extension.
use bsg.Prelude.{
  ℕ, true, false, Option, none, some, List, [], ◌∷◌, ◌≡◌, refl, Text, codes, or_else, All, mem_text,
  arith,
}
use bsg.Prelude.Int.{pos, finite}
use bsg.Prelude.Decimal.{integer_text}
use bsg.Prelude.Json.{Json, num, str}
use bsg.Page.Touches.{keydown, paste, Input, handle_all}
use bsg.Page.Touches.Once.{Distinct, edits, no_touches, handle_all-sent}
use bsg.Page.Widths.{
  StoredPanel, Action, drag, resize, fold_message, unfold_message, maximize_message, init_panel,
}
use bsg.Page.Widths
use bsg.Page.Widths.Usable.{IsUsable, run-IsUsable}
use bsg.Worker.Touched
use bsg.Worker.Touched.{SessionStorage, works, set_rejects, touch, reset, handle, touched}
use bsg.Worker.Touched.Sets.{Represents, TouchedSet, apply_all, handle_all-Represents}
use bsg.Worker.Submissions.{
  Submission, Verdict, submission_pending, submission_result, Step, message, callback,
  set_round_end, run, fresh, find,
}
use bsg.Worker.Submissions.Earned.{Earned, run-Earned}
use bsg.Worker.Submissions.InTurn.{at_once, at_once-lost}
use bsg.Worker.Submissions.Intercept.Posted.{submit_options}
use bsg.Worker.Socket
use bsg.Worker.Socket.{
  Event, initialized, socket_opened, room_changed, socket_closed, timed_out, started, open_from,
  close_from, connect_over, on_open, on_close, on_timeout, send_join_room, connect_web_socket,
  initialize, on_room_changed,
}
use bsg.Worker.Socket.Joins.{last_join, run-last_join}
use bsg.Tests.{panel, sum, lru}

abbrev no_slugs : SessionStorage
no_slugs = record { touched_slugs = none; touched_slugs_round = none; writes = 0 }

abbrev no_set : TouchedSet
no_set = record { round = none; has = λ k. false }

handle_all-Represents_example :
    Represents
      (Touched.handle_all
        ((works, touch sum) ∷ (works, touch sum) ∷ (set_rejects, touch lru) ∷ [])
        no_slugs)
      (apply_all ((works, touch sum) ∷ (works, touch sum) ∷ (set_rejects, touch lru) ∷ []) no_set)
handle_all-Represents_example =
    handle_all-Represents ((works, touch sum) ∷ (works, touch sum) ∷ (set_rejects, touch lru) ∷ [])
      no_slugs no_set record { same_round = refl; members = λ k. refl; distinct = tt }

abbrev solution : ℕ → Text → Submission
solution n slug = record {
  submission_id = num (pos n);
  problem_slug = slug;
  lang = str (codes "cpp");
  typed_code = str (codes "x");
}

abbrev verdict : Text → Verdict
verdict id = record {
  submission_id = some id;
  status_msg = str (codes "Accepted");
  elapsed_time = num (pos 3);
  memory_percentile = num (pos 4);
}

abbrev overlapping : List Step
overlapping =
    set_round_end (some (finite (pos 90)))
    ∷ message (submission_pending (solution 7 sum))
    ∷ callback 0 (pos 10)
    ∷ message (submission_result (verdict (codes "7")))
    ∷ callback 0 (pos 20)
    ∷ []

run-Earned_example : All (Earned overlapping) (run overlapping fresh).posts
run-Earned_example = run-Earned overlapping

at_once-lost_example :
    (find (codes "7") (
        or_else
          (run
            (at_once (solution 7 sum) (solution 8 lru) (pos 1) (pos 2))
            fresh).pending_submissions
          [])
      ≡ none)
    × (find (codes "8") (
          or_else
            (run
              (at_once (solution 7 sum) (solution 8 lru) (pos 1) (pos 2))
              fresh).pending_submissions
            [])
        ≡ some (solution 8 lru))
unfolding integer_text
at_once-lost_example =
    at_once-lost (solution 7 sum) (solution 8 lru) (pos 1) (pos 2) fresh refl refl refl

abbrev read_options : Text → Option Json
read_options s = some (submit_options (str (codes "cpp")) (str (codes "1")) (str (codes "x")))

abbrev parse_nothing : Text → Option Json
parse_nothing s = none

abbrev joining : List Event
joining =
    initialized (some (codes "r1")) (some (codes "u1"))
    ∷ socket_opened 0
    ∷ room_changed (some (codes "r2"))
    ∷ []

run-last_join_example :
    last_join 0 (Socket.run parse_nothing joining (started panel.storage)).joins
    ≡ some (codes "r2", codes "u1_bg")
unfolding Socket.run Socket.step open_from connect_over on_open send_join_room connect_web_socket
    initialize on_room_changed
run-last_join_example =
    run-last_join parse_nothing panel.storage joining 0 (codes "r2") (codes "u1") refl refl refl

abbrev reconnecting : List Event
reconnecting =
    initialized (some (codes "r1")) (some (codes "u1"))
    ∷ socket_opened 0
    ∷ socket_closed 0
    ∷ timed_out
    ∷ socket_opened 1
    ∷ []

abbrev typing : List Input
typing =
    keydown record { key = codes "a"; ctrl_key = false; meta_key = false } true
      (codes "/problems/sum/")
    ∷ keydown record { key = codes "F5"; ctrl_key = false; meta_key = false } true
        (codes "/problems/lru/")
    ∷ paste true (codes "/problems/sum/")
    ∷ []

handle_all-sent_example :
    Distinct (handle_all typing no_touches).sent
    × (mem_text sum (handle_all typing no_touches).sent ≡ edits sum typing)
handle_all-sent_example = handle_all-sent typing sum

abbrev new_panel : StoredPanel
new_panel = record {
  is_panel_folded = none;
  is_panel_maximized = none;
  panel_width_fraction = none;
  pre_maximize_fraction = none;
}

abbrev handling : List (ℕ × Action)
handling =
    (1600, drag 90)
    ∷ (1600, unfold_message)
    ∷ (1600, maximize_message)
    ∷ (900, resize)
    ∷ (900, maximize_message)
    ∷ (900, fold_message)
    ∷ (900, unfold_message)
    ∷ []

run-IsUsable_example :
    IsUsable (Widths.run handling (init_panel record { num = 24; den = 100 } 1600 new_panel))
run-IsUsable_example =
    run-IsUsable record { num = 24; den = 100 } new_panel 1600 handling (omega arith)
      (
        omega arith,
        (
          omega arith,
          (omega arith, (omega arith, (omega arith, (omega arith, (omega arith, tt))))),
        ),
      )
      refl

-- The panel keeps its 24% through the folding, the maximizing and the narrower window.
handling_width :
    (Widths.run handling (init_panel record { num = 24; den = 100 } 1600 new_panel)).width ≡ 216
unfolding Widths.run Widths.act init_panel
handling_width = refl
