-- ===== src/Tests/Choosing.antt =====
-- Tests of the create-room form, its counts, and the stores:
-- bsg-frontend/apps/extension/hooks/useRoomChoice.ts and bsg-frontend/apps/extension/stores.
use bsg.Prelude.{ℕ, ◌≤◌, true, false, none, some, List, [], ◌∷◌, map, ◌≡◌, ◌⊎◌, refl, Text, codes}
use bsg.Prelude.Int.{pos}
use bsg.Prelude.Json.{Json, obj, num, field, end}
use mathlib.Core.List.{Perm}
use bsg.Requests.{replied}
use bsg.Stores.Counts.{CountFilters, CountState}
use bsg.Wizard.{form_init, easy, hard}
use bsg.Wizard.Totals.{IsValid, act, inc, dec, any_box, sent_total, opened}
use bsg.Wizard.Query.{QueryState, start_query, finish_query, answered_from_cache}
use bsg.Wizard.Totals
use bsg.Wizard.{room_settings, requested_total}
use bsg.Wizard.FilterTab
use bsg.Wizard.FilterTab.{
  FilterTab, new_tab, press, not_enough_problems, TabEvent, pressed, counts_changed, counted,
}
use bsg.Wizard.FilterTab.Sent.{asked, presses, press_branches, presses_create}

-- The draws of the room's code.
abbrev no_draw : ℕ → ℕ
no_draw _ = 0

abbrev dp : Text
dp = codes "dp"

abbrev bfs : Text
bfs = codes "bfs"

abbrev two_tags : CountFilters
two_tags = record {
  difficulties = codes "easy";
  tags = dp ∷ bfs ∷ [];
  companies = [];
  blind75 = false;
  neetcode150 = false;
  recently_asked = false;
  exclude_paid = true;
}

abbrev no_counts : CountState
no_counts = record { counts = [] }

two_tags-Perm : Perm two_tags.tags (bfs ∷ dp ∷ [])
two_tags-Perm = mathlib.Core.List.Perm.swap bfs dp []

none-Perm : Perm two_tags.companies []
none-Perm = mathlib.Core.List.Perm.nil

abbrev asking : QueryState
asking = record { available_count = none; is_loading_filter = true; cache = no_counts }

abbrev four : Json
four = obj (field (codes "data") (num (pos 4)) end)

abbrev answered : QueryState
answered = finish_query two_tags (some (replied 200 (some four))) asking

abbrev reordered : CountFilters
reordered = record two_tags { tags = bfs ∷ dp ∷ []; companies = [] }

answered_from_cache_example :
    (answered.available_count ≡ some 4)
    × ((start_query reordered answered).0.available_count ≡ some 4)
    × ((start_query reordered answered).0.is_loading_filter ≡ false)
    × ((start_query reordered answered).1 ≡ false)
answered_from_cache_example =
    answered_from_cache two_tags (bfs ∷ dp ∷ []) [] (replied 200 (some four)) 4 asking two_tags-Perm
      none-Perm (four, refl, refl)

-- Two easy problems, with the steps walked through once.
abbrev walked : List TabEvent
walked =
    counts_changed (inc easy)
    ∷ counted false (some 20)
    ∷ pressed no_draw
    ∷ pressed no_draw
    ∷ pressed no_draw
    ∷ pressed no_draw
    ∷ []

press_branches_example :
    ((press no_draw (FilterTab.run walked new_tab)).sent ≡ (FilterTab.run walked new_tab).sent)
    ⊎ (((press no_draw (FilterTab.run walked new_tab)).sent
          ≡ room_settings (FilterTab.run walked new_tab).form ∷ (FilterTab.run walked new_tab).sent)
        × (asked (room_settings (FilterTab.run walked new_tab).form)
            ≡ requested_total (FilterTab.run walked new_tab).form)
        × (1 ≤ requested_total (FilterTab.run walked new_tab).form)
        × (requested_total (FilterTab.run walked new_tab).form ≤ 10)
        × (not_enough_problems (FilterTab.run walked new_tab) ≡ false)
        × ((FilterTab.run walked new_tab).form.is_submitting_create ≡ false))
press_branches_example = press_branches walked no_draw

sent_two : map asked (press no_draw (FilterTab.run walked new_tab)).sent ≡ 2 ∷ []
unfolding FilterTab.run press FilterTab.handle_primary_action FilterTab.control Totals.act
    bsg.Wizard.increment bsg.Wizard.handle_create_room room_settings requested_total
    bsg.RoomInit.Params.round_params not_enough_problems
sent_two = refl

abbrev touched_tab : FilterTab
touched_tab = record new_tab { first_step_touched = true; available_count = some 20 }

presses_create_example :
    (presses no_draw 5 touched_tab).sent ≡ room_settings touched_tab.form ∷ touched_tab.sent
unfolding not_enough_problems requested_total
presses_create_example = presses_create no_draw 4 touched_tab refl refl refl refl refl
