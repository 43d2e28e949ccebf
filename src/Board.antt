-- ===== src/Board.antt =====
-- The leaderboard of the panel: bsg-frontend/apps/extension/hooks/useLeaderboard.ts. A request is
-- known by the number of its AbortController; its reply is one event, which finds it aborted or not.
pub mod Current
use bsg.Prelude.{
  ℕ, suc, Bool, true, false, ◌&&◌, ◌||◌, not, Option, none, some, List, [], ◌∷◌, ◌++◌, map, pick,
  ◌==◌, leb, if◌then◌else◌, Text, codes, nonempty, text_or, is_some, or_else, ◌⊎◌, inl, inr,
}
use bsg.Prelude.Int.{ℤ}
use bsg.Prelude.Decimal.{natural_text}
use bsg.Stores.Room.{GameEvent, EventType, round_end}

pub record LeaderboardEntry : Type 0 where
  pub user_auth_id : Text
  pub handle : Text
  pub photo_url : Text
  pub score : ℤ
  pub rank : ℤ

-- The fields that the mapping fills, less the two constant ones.
pub record Participant : Type 0 where
  pub id : Text
  pub username : Text
  pub avatar_url : Option Text
  pub score : ℤ

pub record Request : Type 0 where
  pub number : ℕ
  pub room : Text
  pub aborted : Bool

pub record Board : Type 0 where
  pub room_id : Option Text
  pub is_round_started : Bool
  pub last_game_event : Option GameEvent
  pub participants : List Participant
  pub is_loading : Bool
  pub error : Option Text
  -- intervalRef: the room whose standings each tick asks for
  pub interval : Option Text
  -- abortRef
  pub controller : Option ℕ
  pub next_number : ℕ
  pub pending : List Request

-- What a request comes to. A body that is not JSON, or is null, gives the
-- error's message.
pub data Reply : Type 0 where
  -- err.message, where there is one
  rejected : Option Text → Reply
  -- the status, body?.message or the empty text, and the list of the body
  response : ℕ → Text → Text ⊎ Option (List LeaderboardEntry) → Reply

abbrev pub participant_of : LeaderboardEntry → Participant
participant_of e = record {
  id = e.user_auth_id;
  username = text_or e.handle e.user_auth_id;
  avatar_url = if nonempty e.photo_url then some e.photo_url else none;
  score = e.score;
}

abbrev pub abort : Option ℕ → List Request → List Request
abort none qs = qs
abort (some n) [] = []
abort (some n) (q ∷ qs) =
    (if q.number == n then record q { aborted = true } else q) ∷ abort (some n) qs

abbrev pub request_of : Text → Board → Board
request_of r b = record b {
  pending =
      abort b.controller b.pending
      ++ record { number = b.next_number; room = r; aborted = false } ∷ [];
  controller = some b.next_number;
  next_number = suc b.next_number;
  is_loading = true;
  error = none;
}

unfoldable pub fetch_leaderboard : Option Text → Board → Board
fetch_leaderboard none b = b
fetch_leaderboard (some r) b = if nonempty r then request_of r b else b

abbrev pub fail : Text → Board → Board
fail message b = record b { error = some message }

abbrev pub show_entries : Text ⊎ Option (List LeaderboardEntry) → Board → Board
show_entries (inl message) b = fail message b
show_entries (inr entries) b = record b { participants = map participant_of (or_else entries []) }

abbrev pub is_ok : ℕ → Bool
is_ok status = leb 200 status && leb status 299

abbrev pub read_response : ℕ → Text → Text ⊎ Option (List LeaderboardEntry) → Board → Board
read_response status message data_of b =
    if status == 404
    then record b { participants = [] }
    else if is_ok status
    then show_entries data_of b
    else fail (text_or message (codes "HTTP " ++ natural_text status)) b

unfoldable pub read_reply : Reply → Board → Board
read_reply (rejected message) b = fail (or_else message (codes "Failed to load leaderboard")) b
read_reply (response status message data_of) b = read_response status message data_of b

-- A response that is neither a success nor a 404, of which the code reads the body for its message.
abbrev pub is_refusal : Reply → Bool
is_refusal (rejected message) = false
is_refusal (response status message data_of) = not (status == 404 || is_ok status)

-- An aborted request rejects with an AbortError, but for one that is aborted while the body of a
-- refusal is read: that error is caught, and the body taken for an empty object.
abbrev pub settle_aborted : Reply → Board → Board
settle_aborted (rejected message) b = b
settle_aborted (response status message data_of) b =
    if status == 404 || is_ok status then b else fail (codes "HTTP " ++ natural_text status) b

-- The finally block runs in every case.
unfoldable pub settle : Request → Reply → Board → Board
unfolding read_reply
settle q reply b = record (if q.aborted then settle_aborted reply b else read_reply reply b) {
  is_loading = false;
}

-- Another request for the final standings.
unfoldable pub fetch_on_type : EventType → Board → Board
unfolding fetch_leaderboard
fetch_on_type round_end b = fetch_leaderboard b.room_id b
fetch_on_type _ b = b

unfoldable pub fetch_on_round_end : Option GameEvent → Board → Board
unfolding fetch_on_type
fetch_on_round_end none b = b
fetch_on_round_end (some e) b = fetch_on_type e.type b

abbrev pub polled : Bool → Option Text → Option Text
polled true (some r) = if nonempty r then some r else none
polled true none = none
polled false room = none

abbrev pub poll : Board → Board
poll b = record b { interval = polled b.is_round_started b.room_id }

pub data Event : Type 0 where
  room_changed : Option Text → Event
  round_changed : Bool → Event
  game_event : Option GameEvent → Event
  tick refresh : Event
  replied : ℕ → Reply → Event

-- The three effects of a render in which the room, and with it fetchLeaderboard, is new.
unfoldable pub on_room : Option Text → Board → Board
unfolding fetch_leaderboard fetch_on_round_end
on_room room b =
    let fetched = fetch_leaderboard room record b { room_id = room } in
    fetch_on_round_end b.last_game_event (poll fetched)

unfoldable pub settle_picked : Option (Request × List Request) → Reply → Board → Board
unfolding settle
settle_picked none reply b = b
settle_picked (some (q, others)) reply b = settle q reply record b { pending = others }

unfoldable pub step : Event → Board → Board
unfolding on_room fetch_on_round_end fetch_leaderboard settle_picked
step (room_changed room) b = on_room room b
step (round_changed started) b = poll record b { is_round_started = started }
step (game_event e) b = fetch_on_round_end e record b { last_game_event = e }
step tick b = fetch_leaderboard b.interval b
step refresh b = fetch_leaderboard b.room_id b
step (replied i reply) b = settle_picked (pick i b.pending) reply b

unfoldable pub run : List Event → Board → Board
unfolding step
run [] b = b
run (e ∷ es) b = run es (step e b)

-- The hook before its first effects, in no room.
abbrev pub no_board : Board
no_board = record {
  room_id = none;
  is_round_started = false;
  last_game_event = none;
  participants = [];
  is_loading = false;
  error = none;
  interval = none;
  controller = none;
  next_number = 0;
  pending = [];
}
