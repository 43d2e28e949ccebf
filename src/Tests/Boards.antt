-- ===== src/Tests/Boards.antt =====
-- Tests of the leaderboard: bsg-frontend/apps/extension/hooks/useLeaderboard.ts.
use bsg.Prelude.{true, false, none, some, List, [], ◌∷◌, ◌≡◌, refl, codes, inr, ◌⊎◌}
use bsg.Prelude.Int.{pos}
use bsg.Prelude.Decimal.{natural_text}
use bsg.Board
use bsg.Board.{
  LeaderboardEntry, Participant, Reply, response, Event, room_changed, replied, step, no_board,
  fetch_leaderboard, on_room, settle, settle_picked, read_reply, fetch_on_round_end, is_refusal,
}
use bsg.Board.Current.{run-shown}

abbrev moving : List Event
moving = room_changed (some (codes "r1")) ∷ room_changed (some (codes "r25")) ∷ []

abbrev ada : LeaderboardEntry
ada = record {
  user_auth_id = codes "u1";
  handle = codes "";
  photo_url = codes "";
  score = pos 7;
  rank = pos 1;
}

abbrev standings : Reply
standings = response 200 (codes "") (inr (some (ada ∷ [])))

run-shown_example :
    ((step (replied 0 standings) (Board.run moving no_board)).participants
      ≡ (Board.run moving no_board).participants)
    × ((is_refusal standings ≡ true)
        ⊎ ((step (replied 0 standings) (Board.run moving no_board)).error
            ≡ (Board.run moving no_board).error))
unfolding Board.run step on_room fetch_leaderboard fetch_on_round_end
run-shown_example =
    run-shown moving 0 standings record { number = 0; room = codes "r1"; aborted = true }
      (record { number = 1; room = codes "r25"; aborted = false } ∷ []) refl refl (λ same. cc)

-- The reply for the room that the panel is in is shown, under the identifier where there is no handle.
shown_standings :
    (step (replied 1 standings) (Board.run moving no_board)).participants
    ≡ record { id = codes "u1"; username = codes "u1"; avatar_url = none; score = pos 7 } ∷ []
unfolding Board.run step on_room fetch_leaderboard fetch_on_round_end settle_picked settle
    read_reply
shown_standings = refl

abbrev server_error : Reply
server_error = response 500 (codes "") (inr none)

-- A refusal for the room that was left, with its body still being read, becomes the panel's error.
shown_refusal :
    (step (replied 0 server_error) (Board.run moving no_board)).error ≡ some (codes "HTTP 500")
unfolding Board.run step on_room fetch_leaderboard fetch_on_round_end settle_picked settle
    natural_text
shown_refusal = refl
