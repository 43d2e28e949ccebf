-- ===== src/Session/Start.antt =====
-- The start of the panel's session: bsg-frontend/apps/extension/hooks/useSessionInit.ts.
use bsg.Prelude.{
  ℕ, Bool, true, false, not, Option, none, some, ◌≡◌, refl, if◌then◌else◌, codes, Option-cases, inl,
  inr,
}
use bsg.Prelude.Int.{ℤ, Number}
use bsg.Prelude.Json.{Json, truthy, get_opt}
use bsg.Prelude.Effects.{Outcome, throws}
use bsg.Navigation.{Pushed}
use bsg.Requests.{Reply}
use bsg.Requests.Retries.{fetch_with_retry_total}
use bsg.World.{World}
use bsg.RoomInit.Active.{check_active_room}
use bsg.Session.{
  Answers, Lookup, login_as, has_fields, signed_in, after_check, from_cache, init_session,
  SessionState, settle, session_effect,
}

-- The page may be rendered, and the session is not started again.
IsReady : SessionState → Type 0
IsReady s = (s.session_ready ≡ true) × (s.has_run ≡ true)

if_Ready : (b : Bool) (s t : SessionState) → IsReady s → IsReady t → IsReady (if b then s else t)
if_Ready true s t h k = h
if_Ready false s t h k = k

-- What settles, with some world.
Settles : Option (Outcome Bool × World) → Type 0
Settles o = (x : Outcome Bool × World) × (o ≡ some x)

module _ (parse_date : Json → Number) (now : ℤ) (attempts : ℕ → Reply) (room participants : Reply)
    (to_room : Pushed) where
  abbrev find_room : Lookup
  find_room = check_active_room parse_date now attempts room participants to_room

  find_room_total : (w : World) → (x : Bool × World) × (find_room w ≡ some x)
  unfolding check_active_room
  find_room_total w = elim (Option-cases (find_room w)) [
    | inl e ↦
        let (n, h) = fetch_with_retry_total attempts in
        let settled : some _ ≡ none = rw (check_active_room, h.runs) at e in absurd cc
    | inr found ↦ found
  ]

  if_Settles :
      (b : Bool) (o p : Option (Outcome Bool × World))
      → Settles o
      → Settles p
      → Settles (if b then o else p)
  if_Settles true o p h k = h
  if_Settles false o p h k = k

  signed_in-Settles :
      (pushed : Pushed) (user : Json) (w : World) → Settles (signed_in find_room pushed user w)
  unfolding Settles
  signed_in-Settles pushed user w =
      let (found, h) = find_room_total (login_as user w) in
      if_Settles (has_fields user) _ _ (rw h (_, refl)) ((throws, w), refl)

  after_check-Settles :
      (pushed : Pushed) (response : Option Json) (w : World)
      → Settles (after_check find_room pushed response w)
  unfolding Settles
  after_check-Settles pushed none w = (_, refl)
  after_check-Settles pushed (some response) w =
      if_Settles (truthy (get_opt response (codes "success"))) _ _
        (signed_in-Settles pushed (get_opt response (codes "user")) w) (_, refl)

  from_cache-Settles :
      (a : Answers) (cached : Option Json) (w : World) → Settles (from_cache find_room a cached w)
  unfolding Settles
  from_cache-Settles a none w = (_, refl)
  from_cache-Settles a (some cached) w =
      if_Settles (truthy (get_opt cached (codes "id"))) _ _
        (after_check-Settles a.pushed a.check_auth w) (_, refl)

  init_session_total : (a : Answers) (w : World) → Settles (init_session find_room a w)
  unfolding init_session
  init_session_total a w = from_cache-Settles a a.cached_user w

  settle-IsReady :
      (s : SessionState) (o : Option (Outcome Bool × World))
      → s.has_run ≡ true
      → Settles o
      → IsReady (settle s o)
  unfolding Settles IsReady
  settle-IsReady s o h (x, e) = rw e (refl, h)

  first_effect :
      (a : Answers) (s : SessionState)
      → s.has_run ≡ false
      → IsReady (session_effect true find_room a s)
  unfolding session_effect IsReady
  first_effect a s h = rw h (
      if_Ready (not s.world.available) _ _ (refl, refl)
        (settle-IsReady record s { has_run = true } (init_session find_room a s.world) refl
          (init_session_total a s.world)))

  later_effect :
      (lookup : Lookup) (b : Answers) (t : SessionState)
      → t.has_run ≡ true
      → session_effect true lookup b t ≡ t
  unfolding session_effect
  later_effect lookup b t h = rw h refl

  -- Whatever the storage, the worker, the server and the router answer, the first run of the
  -- session's effect lets the page be rendered, and later runs change nothing.
  pub session_effect_ready :
      (a b : Answers) (s : SessionState) (lookup : Lookup)
      → s.has_run ≡ false
      → let t = session_effect true find_room a s in
        (t.session_ready ≡ true) × (session_effect true lookup b t ≡ t)
  unfolding IsReady
  session_effect_ready a b s lookup h =
      let (ready, ran) = first_effect a s h in
      (ready, later_effect lookup b (session_effect true find_room a s) ran)
