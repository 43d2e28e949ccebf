-- ===== src/Events/Rounds.antt =====
-- What a round leaves in the panel's stores while it runs and when it is over:
-- bsg-frontend/apps/extension/hooks/useRoomEvents.ts.
use bsg.Prelude.{
  ℕ, true, false, Option, none, some, List, [], ◌∷◌, ◌≡◌, refl, ap, sym, ◌∙◌, Text, Bool-cases, ◌⊎◌,
  inl, inr, or_else, All,
}
use bsg.Prelude.Int.{ℤ}
use bsg.Prelude.Json.{Json}
use bsg.Navigation.{Tab, navigate_active_tab, resolve_resume_slug}
use bsg.Navigation.Slugs.{IsSlug}
use bsg.Navigation.Replay.{Obeys, resume_replays}
use bsg.Stores.Room.{EventType, round_start, join_round}
use bsg.World.{problem_progress_reset, request_participants}
use bsg.Events.{
  EventsState, on_world, set_last_game, save_last_game, end_time_of, problems_of, round_key,
  is_own_join, open_problems, apply_round_data, on_round_start, on_join_round,
}
use bsg.Events.Handlers.{resume_on_mount, skips_resume}

-- A client that is in a running round with problems, where the extension's API is there.
pub record InRound (now : ℤ) (room_id : Text) (v : Json) (before after : EventsState) : Type 0 where
  pub started : after.world.room.is_round_started ≡ true
  pub not_ended : after.world.room.has_round_ended ≡ false
  pub timer : after.world.room.round_end_time ≡ some (end_time_of now v)
  pub stored_timer : after.world.storage.round_end_time ≡ some (end_time_of now v)
  pub stored_problems : after.world.storage.problems ≡ some (problems_of v)
  pub no_next : (after.next_problem ≡ none) × (after.world.storage.next_problem ≡ none)
  pub no_badge : after.world.badge ≡ []
  pub reset_sent :
      after.world.messages
      ≡ problem_progress_reset (round_key room_id v (problems_of v)) ∷ before.world.messages
  pub same_room : after.world.room.room_id ≡ before.world.room.room_id
  pub same_user : after.world.user ≡ before.world.user

module _ (update : ℕ → Text → Option Tab) (now : ℤ) (room_id : Text) (v : Json) (s : EventsState)
    (p : Text) (ps : List Text) (some_problems : problems_of v ≡ p ∷ ps) where
  -- What round-start and a user's own join-round have in common.
  abbrev entered : EventType → EventsState
  entered t = on_world (save_last_game t) (
      apply_round_data update now room_id v
        (on_world (request_participants room_id) (set_last_game t s)))

  -- The tab takes the one door, with the round's problems.
  entered-tabs :
      (t : EventType)
      → (entered t).world.tabs
        ≡ navigate_active_tab update (λ url. resolve_resume_slug url (p ∷ ps)) s.world.tabs
  unfolding apply_round_data open_problems
  entered-tabs t = simp some_problems

  on_round_start-tabs :
      (on_round_start update now room_id v s).world.tabs
      ≡ navigate_active_tab update (λ url. resolve_resume_slug url (p ∷ ps)) s.world.tabs
  unfolding on_round_start
  on_round_start-tabs = entered-tabs round_start

  module _ (api : s.world.available ≡ true) where
    entered-InRound :
        (t : EventType)
        → InRound now room_id v s (entered t) × ((entered t).world.storage.last_game_event ≡ some t)
    unfolding apply_round_data open_problems
    entered-InRound t = (
      record {
        started = simp some_problems;
        not_ended = simp some_problems;
        timer = simp some_problems;
        stored_timer = simp (some_problems, api);
        stored_problems = simp (some_problems, api);
        no_next = (refl, simp (some_problems, api));
        no_badge = simp (some_problems, api);
        reset_sent = simp (some_problems, api);
        same_room = simp some_problems;
        same_user = simp some_problems;
      },
      simp (some_problems, api),
    )

    -- A round-start puts the panel into the round: both timers, the stored problems and the flags
    -- agree with the payload, what the last problem left is gone, and the worker is told once.
    pub on_round_start-InRound :
        InRound now room_id v s (on_round_start update now room_id v s)
        × ((on_round_start update now room_id v s).world.storage.last_game_event ≡ some round_start)
    unfolding on_round_start
    on_round_start-InRound = entered-InRound round_start

    -- So does a join-round in the client of the user who joined.
    own_join-InRound :
        is_own_join v s.world.user.user_id ≡ true
        → InRound now room_id v s (on_join_round update now room_id v s)
          × ((on_join_round update now room_id v s).world.storage.last_game_event ≡ some join_round)
    unfolding on_join_round
    own_join-InRound own = rw own (entered-InRound join_round)

-- A join-round reaches every client of the room. In the client of the user who joined a running
-- round it sets up that round; in any other it only asks for the participants.
on_join_round_branches :
    (update : ℕ → Text → Option Tab) (now : ℤ) (room_id : Text) (v : Json) (s : EventsState)
    (p : Text) (ps : List Text)
    → problems_of v ≡ p ∷ ps
    → s.world.available ≡ true
    → ((is_own_join v s.world.user.user_id ≡ true)
        × InRound now room_id v s (on_join_round update now room_id v s))
      ⊎ ((is_own_join v s.world.user.user_id ≡ false)
          × (on_join_round update now room_id v s ≡ record s {
            last_game = some join_round;
            world = record s.world { refreshes = room_id ∷ s.world.refreshes };
          }))
unfolding on_join_round
on_join_round_branches update now room_id v s p ps e api =
    elim (Bool-cases (is_own_join v s.world.user.user_id)) [
      | inl own ↦ inl (own, (own_join-InRound update now room_id v s p ps e api own).0)
      | inr other ↦ inr (other, rw other)
    ]

-- The panel is reloaded: the hook starts afresh, the stores are restored.
abbrev pub reloaded : EventsState → EventsState
reloaded s = record s { last_game = none; next_problem = none }

resume-tabs :
    (update : ℕ → Text → Option Tab) (now : ℤ) (s : EventsState)
    → ((resume_on_mount update now s).world.tabs ≡ s.world.tabs)
      ⊎ ((resume_on_mount update now s).world.tabs
          ≡ navigate_active_tab update
              (λ url. resolve_resume_slug url (or_else s.world.storage.problems []))
              s.world.tabs)
unfolding resume_on_mount
resume-tabs update now s = elim (Bool-cases (skips_resume now s)) [
  | inl h ↦ inl (simp h)
  | inr h ↦ inr (simp h)
]

-- The navigation that a round-start makes reloads the panel. Whenever the reloaded panel then
-- resumes, the tab stays where it is: the reload is not followed by another move. This holds where
-- tab updates are not rejected and the round's slugs are well formed.
pub resume_after_round_start :
    (update : ℕ → Text → Option Tab)
    → Obeys update
    → (now later : ℤ) (room_id : Text) (v : Json) (s : EventsState) (p : Text) (ps : List Text)
    → problems_of v ≡ p ∷ ps
    → All IsSlug (p ∷ ps)
    → s.world.available ≡ true
    → (resume_on_mount update later (reloaded (on_round_start update now room_id v s))).world.tabs
      ≡ (on_round_start update now room_id v s).world.tabs
resume_after_round_start update obeys now later room_id v s p ps e slugs api =
    let after = on_round_start update now room_id v s in
    let (round, _) = on_round_start-InRound update now room_id v s p ps e api in
    let moved = on_round_start-tabs update now room_id v s p ps e in
    let stored : or_else after.world.storage.problems [] ≡ p ∷ ps =
      ap (λ o. or_else o []) round.stored_problems ∙ e in
    elim (resume-tabs update later (reloaded after)) [
      | inl same ↦ same
      | inr again ↦
          again
          ∙ ap
              (λ qs.
                navigate_active_tab update (λ url. resolve_resume_slug url qs) after.world.tabs)
              stored
          ∙ ap (navigate_active_tab update (λ url. resolve_resume_slug url (p ∷ ps))) moved
          ∙ resume_replays update obeys (p ∷ ps) slugs s.world.tabs 1
          ∙ sym moved
    ]
