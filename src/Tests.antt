-- ===== src/Tests.antt =====
-- Sample data for the tests, which run the modelled code of bsg-frontend and server on small
-- inputs.
mod Navigating
mod Playing
mod Chatting
mod Choosing
mod Entering
mod Picking
mod Working
mod Serving
mod Boards
mod Starting
mod Reading
mod Following
use bsg.Prelude.{ℕ, Bool, true, false, Option, none, some, List, [], ◌∷◌, ◌≡◌, refl, Text, codes}
use bsg.Prelude.Int.{ℤ, pos}
use bsg.Prelude.Json.{Json, obj, arr, str, num, field, end, cons, nil}
use bsg.Navigation.{Tab, Tabs}
use bsg.Navigation.Slugs.{IsSlug}
use bsg.Navigation.Replay.{Obeys}
use bsg.Stores.User.{UserState, user_store_init, login_user}
use bsg.Stores.Room.{RoomState, room_store_init, init_room}
use bsg.World.{World}

abbrev pub update_tab : ℕ → Text → Option Tab
update_tab id url = some (record { id = some id; url = some url })

pub update_tab-Obeys : Obeys update_tab
update_tab-Obeys id url = refl

abbrev pub browsing : Text → Tabs
browsing url = record {
  available = true;
  active = some (record { id = some 7; url = some url });
  issued = [];
}

abbrev pub sum : Text
sum = codes "sum"

abbrev pub lru : Text
lru = codes "lru"

pub sum-IsSlug : IsSlug sum
sum-IsSlug = (refl, (refl, (refl, (refl, tt))))

pub lru-IsSlug : IsSlug lru
lru-IsSlug = (refl, (refl, (refl, (refl, tt))))

abbrev pub alice : UserState
alice = login_user (codes "u1") (codes "alice") (codes "a@x.org") [] user_store_init

abbrev pub in_room : RoomState
in_room = init_room (codes "r1") (codes "ABCDE") (codes "u1") true room_store_init

abbrev pub panel : World
panel = record {
  available = true;
  user = alice;
  room = in_room;
  storage = record {
    active_room_id = some (codes "r1");
    next_problem = some (codes "old");
    round_end_time = none;
    problems = none;
    last_game_event = none;
    user = none;
  };
  badge = codes "!";
  tabs = browsing (codes "https://leetcode.com/");
  messages = [];
  routes = [];
  refreshes = [];
}

-- A round of thirty minutes that starts at second 1000, with two problems.
abbrev pub round_payload : Json
round_payload = obj (
    field (codes "startTime") (num (pos 1000)) (
      field (codes "duration") (num (pos 30))
        (field (codes "problems") (arr (cons (str sum) (cons (str lru) nil))) end)))

-- One with no problems, and without the server's clock.
abbrev pub unstamped_payload : Json
unstamped_payload =
    obj (field (codes "startTime") (num (pos 1000)) (field (codes "duration") (num (pos 30)) end))

-- The same with the server's clock, which shows second 990.
abbrev pub stamped_payload : Json
stamped_payload = obj (
    field (codes "startTime") (num (pos 1000))
      (field (codes "duration") (num (pos 30)) (field (codes "serverNow") (num (pos 990)) end)))
