-- ===== src/Stores/Room/Tabs.antt =====
-- The tab that Settings returns to, over the sequences of operations of
-- bsg-frontend/apps/extension/stores/useRoomStore.ts.
use bsg.Prelude.{ap, Bool, Option, List, ◌≡◌, ◌≢◌, refl, Text}
use bsg.Prelude.Int.{ℤ, Number}
use bsg.Stores.Room.{
  TabName, settings, User, GameEvent, RoomState, room_store_init, set_is_in_room, set_room_id,
  set_is_connected, set_is_admin, set_admin_id, set_room_code, set_participants, set_active_tab,
  set_is_round_started, set_has_round_ended, set_round_end_time, set_round_duration,
  set_last_game_event, set_room_notice, set_problems, set_last_participant_join_time,
  increment_unread, clear_unread, init_room, reset_room, remembered, tab_to_remember,
}

-- Every action of the store.
pub data Action : Type 0 where
  in_room connected admin started ended : Bool → Action
  room code : Option Text → Action
  new_admin : Text → Action
  people : List User → Action
  tab : TabName → Action
  end_time : Option Number → Action
  duration joined_at : Option ℤ → Action
  event : Option GameEvent → Action
  notice : Option Text → Action
  slugs : List Text → Action
  unread cleared reset : Action
  init : Text → Text → Text → Bool → Action

pub act : Action → RoomState → RoomState
act (in_room b) s = set_is_in_room b s
act (connected b) s = set_is_connected b s
act (admin b) s = set_is_admin b s
act (started b) s = set_is_round_started b s
act (ended b) s = set_has_round_ended b s
act (room id) s = set_room_id id s
act (code c) s = set_room_code c s
act (new_admin id) s = set_admin_id id s
act (people us) s = set_participants us s
act (tab t) s = set_active_tab t s
act (end_time t) s = set_round_end_time t s
act (duration d) s = set_round_duration d s
act (joined_at t) s = set_last_participant_join_time t s
act (event e) s = set_last_game_event e s
act (notice n) s = set_room_notice n s
act (slugs ps) s = set_problems ps s
act unread s = increment_unread s
act cleared s = clear_unread s
act reset s = reset_room s
act (init id c a b) s = init_room id c a b s

-- The states that the store can be in.
pub data Reached : RoomState → Type 0 where
  created : Reached room_store_init
  after : (a : Action) {s : RoomState} → Reached s → Reached (act a s)

tab_to_remember-ne :
    (active previous : TabName) → previous ≢ settings → tab_to_remember active previous ≢ settings
tab_to_remember-ne settings previous h = h
tab_to_remember-ne _ previous h = λ e. cc

remembered-ne :
    (t : TabName) (s : RoomState) → s.previous_tab ≢ settings → remembered t s ≢ settings
remembered-ne settings s h = tab_to_remember-ne s.active_tab s.previous_tab h
remembered-ne _ s h = h

act-previous_tab :
    (a : Action) (s : RoomState) → s.previous_tab ≢ settings → (act a s).previous_tab ≢ settings
unfolding act set_active_tab init_room
act-previous_tab (tab t) s h = remembered-ne t s h
act-previous_tab reset s h = λ e. cc
act-previous_tab _ s h = h

-- Whatever actions ran, the remembered tab is never Settings itself, as its type says.
Reached-previous_tab : {s : RoomState} → Reached s → s.previous_tab ≢ settings
Reached-previous_tab created = λ e. cc
Reached-previous_tab (after a {s} r) = act-previous_tab a s (Reached-previous_tab r)

remembered_other : (t : TabName) (s : RoomState) → t ≢ settings → remembered t s ≡ s.previous_tab
remembered_other settings s h = absurd (h refl)
remembered_other _ s h = refl

tab_to_remember_other :
    (active previous : TabName) → active ≢ settings → tab_to_remember active previous ≡ active
tab_to_remember_other settings previous h = absurd (h refl)
tab_to_remember_other _ previous h = refl

-- Opening Settings from another tab, any number of times in a row, and going back to the remembered
-- tab shows that tab again, with the room as it was.
settings_round_trip :
    (s : RoomState)
    → s.active_tab ≢ settings
    → let opened = set_active_tab settings s in
      let again = set_active_tab settings opened in
      (again ≡ opened)
      × (set_active_tab opened.previous_tab opened ≡ record s { previous_tab = s.active_tab })
unfolding set_active_tab
settings_round_trip s h =
    let e = tab_to_remember_other s.active_tab s.previous_tab h in
    (
      refl,
      simp e (
          ap (λ t. record s { previous_tab = t })
            (remembered_other s.active_tab
              (record s { active_tab = settings; previous_tab = s.active_tab }) h)),
    )
