-- ===== src/Tests/Entering.antt =====
-- Tests of the ways into a room: bsg-frontend/apps/extension/hooks/useRoomInit.ts.
use bsg.Prelude.{true, false, some, ◌≡◌, ◌⊎◌, refl, Text, codes}
use bsg.Prelude.Int.{pos, Number, finite, num_lt}
use bsg.Prelude.Json.{Json, obj, arr, num, str, field, end, nil}
use bsg.Navigation.{resolved, push_route}
use bsg.Requests.{Reply, replied}
use bsg.Requests
use bsg.World.{World}
use bsg.RoomInit.Flows.{ActionResult, success, failure, join_room, create_room}
use bsg.RoomInit.Active.{resume_round}
use bsg.RoomInit.Laws.{Entered, all_accepted, create_room_branches}
use bsg.Tests.{panel}

-- The server's answer about a room.
abbrev room : Json
room = obj (
    field (codes "data")
      (obj (
        field (codes "id") (str (codes "r2")) (
          field (codes "shortCode") (str (codes "WXYZ1"))
            (field (codes "adminId") (str (codes "u2")) end))))
      end)

abbrev no_users : Json
no_users = obj (field (codes "data") (arr nil) end)

abbrev room_two : Json
room_two = obj (
    field (codes "id") (str (codes "r2")) (
      field (codes "shortCode") (str (codes "WXYZ1"))
        (field (codes "adminId") (str (codes "u2")) end)))

abbrev joined : ActionResult × World
joined = join_room (replied 200 (some room)) (replied 200 (some no_users)) (resolved true) panel

abbrev made : ActionResult × World
made =
    create_room (some 20) (replied 201 (some room)) (replied 201 (some no_users))
      (replied 200 (some room)) Requests.rejected (resolved true) panel

create_room_branches_example :
    ((all_accepted (replied 201 (some room)) (replied 201 (some no_users)) (replied 200 (some room))
        ≡ true)
      × (made.0 ≡ success)
      × Entered (codes "r2") panel made.1)
    ⊎ ((all_accepted
            (replied 201 (some room))
            (replied 201 (some no_users))
            (replied 200 (some room))
          ≡ false)
        × ((message : Text) × (made.0 ≡ failure message))
        × (made.1 ≡ panel))
unfolding push_route
create_room_branches_example =
    create_room_branches (some 20) (replied 201 (some room)) (replied 201 (some no_users))
      (replied 200 (some room)) Requests.rejected (resolved true) true panel refl refl

abbrev running : Json
running =
    obj
      (field (codes "Status") (str (codes "started")) (field (codes "duration") (num (pos 30)) end))

abbrev epoch : Json → Number
epoch v = finite (pos 1_000)

abbrev resumed : World
resumed = resume_round epoch (pos 5_000) running panel

-- The round that ends ahead of the instant is taken up.
resumed_running : resumed.room.is_round_started ≡ true
unfolding resume_round bsg.Prelude.Int.◌+ℤ◌ bsg.Prelude.Int.◌*ℤ◌
resumed_running = refl
