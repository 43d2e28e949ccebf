-- ===== src/Tests/Starting.antt =====
-- Tests of the panel's session: bsg-frontend/apps/extension/hooks.
use bsg.Prelude.{ℕ, true, false, none, some, List, [], ◌∷◌, ◌≡◌, refl, codes}
use bsg.Prelude.Int.{Number, finite, pos}
use bsg.Prelude.Json.{Json, obj, field, str, end, undefined}
use bsg.Navigation.{resolved}
use bsg.Requests.{Reply, replied, rejected}
use bsg.RoomInit.Active.{check_active_room}
use bsg.Session.{Answers, SessionState, session_effect, Tick, Polling}
use bsg.Session.Start.{session_effect_ready}
use bsg.Tests.{panel}

abbrev parse_date : Json → Number
parse_date v = finite (pos 0)

abbrev busy : ℕ → Reply
busy n = replied 429 none

abbrev cached : Answers
cached = record {
  cached_user = some (obj (field (codes "id") (str (codes "u1")) end));
  check_auth = some undefined;
  pushed = resolved true;
}

abbrev unopened : SessionState
unopened = record { world = panel; has_run = false; session_ready = false }

abbrev opened_panel : SessionState
opened_panel =
    session_effect true
      (check_active_room parse_date (pos 1) busy rejected rejected (resolved true)) cached unopened

session_effect_ready_example :
    (opened_panel.session_ready ≡ true)
    × (session_effect true (λ w. none) cached opened_panel ≡ opened_panel)
session_effect_ready_example =
    session_effect_ready parse_date (pos 1) busy rejected rejected (resolved true) cached cached
      unopened (λ w. none) refl

abbrev ticks : List Tick
ticks =
    record { reply = none; closed = false; last = none }
    ∷ record {
      reply = none;
      closed = true;
      last = some record { connected = true; username = none };
    }
    ∷ []

abbrev waiting : Polling
waiting = record {
  connection = record { connected = false; username = none };
  scheduled = true;
  requests = 0;
}
