-- ===== src/Board/Current.antt =====
-- What the leaderboard shows is of the room that the panel is in:
-- bsg-frontend/apps/extension/hooks/useLeaderboard.ts.
use bsg.Prelude.{
  ℕ, Bool, true, false, ◌||◌, Option, none, some, List, [], ◌∷◌, pick, ◌==◌, ==_iff, pick-cases,
  sym, ◌∙◌, subst, if◌then◌else◌, Text, nonempty, ◌⊎◌, inl, inr, ◌≡◌, ◌≢◌, refl, All, All-append,
  All-pick, Bool-cases,
}
use bsg.Stores.Room.{GameEvent, EventType, round_start, next_problem, round_end, join_round}
use bsg.Board.{
  Request, Board, Reply, Event, abort, request_of, fetch_leaderboard, fetch_on_round_end, poll,
  polled, on_room, fetch_on_type, is_ok, rejected, response, settle, settle_aborted, is_refusal,
  settle_picked, read_reply, step, run, no_board, room_changed, round_changed, game_event, tick,
  refresh, replied,
}

-- Whether the panel is in some room.
abbrev pub in_room : Option Text → Bool
in_room none = false
in_room (some r) = nonempty r

-- Aborted, or the last request made, and then for the panel's room if it is in one.
abbrev IsCurrent : Option Text → Option ℕ → Request → Type 0
IsCurrent room controller q =
    (q.aborted ≡ true)
    ⊎ ((controller ≡ some q.number) × ((in_room room ≡ false) ⊎ (room ≡ some q.room)))

-- The interval, if there is one, asks for the panel's room.
abbrev IsPolled : Option Text → Option Text → Type 0
IsPolled room interval = (interval ≡ none) ⊎ (interval ≡ room)

Tracks : Option Text → Board → Type 0
Tracks room b = All (IsCurrent room b.controller) b.pending × (b.room_id ≡ room)

abort_one :
    (room : Option Text) (n : ℕ) (q : Request)
    → IsCurrent room (some n) q
    → (if q.number == n then record q { aborted = true } else q).aborted ≡ true
abort_one room n q (inl a) = elim (Bool-cases (q.number == n)) [
  | inl e ↦ simp (e) refl
  | inr e ↦ simp (e) a
]
abort_one room n q (inr (e, _)) =
    let same : q.number ≡ n = cc in simp ((==_iff q.number n).1 same) refl

abort-All :
    (room : Option Text) (controller : Option ℕ) (qs : List Request)
    → All (IsCurrent room controller) qs
    → All (λ q. q.aborted ≡ true) (abort controller qs)
abort-All room none [] h = tt
abort-All room none (q ∷ qs) (inl a, hs) = (a, abort-All room none qs hs)
abort-All room none (q ∷ qs) (inr (e, _), hs) = absurd cc
abort-All room (some n) [] h = tt
abort-All room (some n) (q ∷ qs) (h, hs) = (abort_one room n q h, abort-All room (some n) qs hs)

All-mono :
    {P Q : Request → Type 0} (qs : List Request) → ((q : Request) → P q → Q q) → All P qs → All Q qs
All-mono [] f h = tt
All-mono (q ∷ qs) f (h, hs) = (f q h, All-mono qs f hs)

-- Outside rooms any request may be the current one.
outside :
    (old room : Option Text) (controller : Option ℕ)
    → in_room room ≡ false
    → (q : Request) → IsCurrent old controller q
    → IsCurrent room controller q
outside old room controller left q (inl a) = inl a
outside old room controller left q (inr (e, _)) = inr (e, inl left)

fetch-Tracks :
    (old room : Option Text) (b : Board)
    → All (IsCurrent old b.controller) b.pending
    → b.room_id ≡ room
    → Tracks room (fetch_leaderboard room b)
unfolding fetch_leaderboard Tracks
fetch-Tracks old none b h same = (All-mono b.pending (outside old none b.controller refl) h, same)
fetch-Tracks old (some r) b h same = go (nonempty r) refl
  where
    go : (full : Bool) → nonempty r ≡ full → Tracks (some r) (if full then request_of r b else b)
    go true e = (
      All-append (IsCurrent (some r) (some b.next_number)) (abort b.controller b.pending) _
          (All-mono (abort b.controller b.pending) (λ q a. inl a)
            (abort-All old b.controller b.pending h))
          (inr (refl, inr refl), tt),
      same,
    )
    go false e = (All-mono b.pending (outside old (some r) b.controller e) h, same)

fetch-interval : (room : Option Text) (b : Board) → (fetch_leaderboard room b).interval ≡ b.interval
unfolding fetch_leaderboard
fetch-interval none b = refl
fetch-interval (some r) b = elim (Bool-cases (nonempty r)) [
  | inl e ↦ simp (e) refl
  | inr e ↦ simp (e) refl
]

Tracked : Board → Type 0
unfolding Tracks
Tracked b = (room : Option Text) × Tracks room b × IsPolled room b.interval

fetch-Tracked : (b : Board) → Tracked b → Tracked (fetch_leaderboard b.room_id b)
unfolding Tracks Tracked
fetch-Tracked b (room, (h, same), i) = (
  b.room_id,
  fetch-Tracks room b.room_id b h refl,
  rw (fetch-interval b.room_id b) (subst (λ o. IsPolled o b.interval) (sym same) i),
)

tick-Tracked : (b : Board) → Tracked b → Tracked (fetch_leaderboard b.interval b)
unfolding Tracks Tracked fetch_leaderboard
tick-Tracked b (room, (h, same), inl off) =
    subst (λ o. Tracked (fetch_leaderboard o b)) (sym off) (room, (h, same), inl off)
tick-Tracked b (room, (h, same), inr on) =
    subst (λ o. Tracked (fetch_leaderboard o b)) (same ∙ sym on)
      (fetch-Tracked b (room, (h, same), inr on))

fetch_on_type-Tracked : (t : EventType) (b : Board) → Tracked b → Tracked (fetch_on_type t b)
unfolding fetch_on_type
fetch_on_type-Tracked round_end b h = fetch-Tracked b h
fetch_on_type-Tracked round_start b h = h
fetch_on_type-Tracked next_problem b h = h
fetch_on_type-Tracked join_round b h = h

fetch_on_round_end-Tracked :
    (e : Option GameEvent) (b : Board) → Tracked b → Tracked (fetch_on_round_end e b)
unfolding fetch_on_round_end
fetch_on_round_end-Tracked none b h = h
fetch_on_round_end-Tracked (some e) b h = fetch_on_type-Tracked e.type b h

polled-IsPolled : (started : Bool) (room : Option Text) → IsPolled room (polled started room)
polled-IsPolled true none = inl refl
polled-IsPolled true (some r) = elim (Bool-cases (nonempty r)) [
  | inl e ↦ simp (e) (inr refl)
  | inr e ↦ simp (e) (inl refl)
]
polled-IsPolled false room = inl refl

poll-Tracked : (room : Option Text) (b : Board) → Tracks room b → Tracked (poll b)
unfolding Tracks Tracked
poll-Tracked room b (h, same) = (
  room,
  (h, same),
  subst (λ o. IsPolled o (polled b.is_round_started b.room_id)) same
      (polled-IsPolled b.is_round_started b.room_id),
)

on_room-Tracked : (room : Option Text) (b : Board) → Tracked b → Tracked (on_room room b)
unfolding Tracks Tracked on_room
on_room-Tracked room b (old, (h, same), i) = fetch_on_round_end-Tracked b.last_game_event _ (
    poll-Tracked room (fetch_leaderboard room record b { room_id = room })
      (fetch-Tracks old room record b { room_id = room } h refl))

if_Tracked : (t : Bool) (b c : Board) → Tracked b → Tracked c → Tracked (if t then b else c)
if_Tracked true b c h k = h
if_Tracked false b c h k = k

read_reply-Tracked : (reply : Reply) (b : Board) → Tracked b → Tracked (read_reply reply b)
unfolding Tracks Tracked read_reply
read_reply-Tracked (rejected message) b h = h
read_reply-Tracked (response status message (inl text)) b h =
    if_Tracked (status == 404) _ _ h (if_Tracked (is_ok status) _ _ h h)
read_reply-Tracked (response status message (inr entries)) b h =
    if_Tracked (status == 404) _ _ h (if_Tracked (is_ok status) _ _ h h)

settle_aborted-Tracked : (reply : Reply) (b : Board) → Tracked b → Tracked (settle_aborted reply b)
unfolding Tracks Tracked
settle_aborted-Tracked (rejected message) b h = h
settle_aborted-Tracked (response status message data_of) b h =
    if_Tracked (status == 404 || is_ok status) _ _ h h

settle_aborted-frame :
    (reply : Reply) (b : Board)
    → ((settle_aborted reply b).participants ≡ b.participants)
      × ((is_refusal reply ≡ true) ⊎ ((settle_aborted reply b).error ≡ b.error))
settle_aborted-frame (rejected message) b = (refl, inr refl)
settle_aborted-frame (response status message data_of) b =
    elim (Bool-cases (status == 404 || is_ok status)) [
      | inl e ↦ rw e (refl, inr refl)
      | inr e ↦ rw e (refl, inl refl)
    ]

settle-Tracked : (q : Request) (reply : Reply) (b : Board) → Tracked b → Tracked (settle q reply b)
unfolding Tracks Tracked settle
settle-Tracked q reply b h =
    if_Tracked q.aborted (settle_aborted reply b) (read_reply reply b)
      (settle_aborted-Tracked reply b h) (read_reply-Tracked reply b h)

step-Tracked : (e : Event) (b : Board) → Tracked b → Tracked (step e b)
unfolding Tracks Tracked step settle_picked
step-Tracked (room_changed room) b h = on_room-Tracked room b h
step-Tracked (round_changed started) b (room, h, i) =
    poll-Tracked room record b { is_round_started = started } h
step-Tracked (game_event e) b h = fetch_on_round_end-Tracked e record b { last_game_event = e } h
step-Tracked tick b h = tick-Tracked b h
step-Tracked refresh b h = fetch-Tracked b h
step-Tracked (replied i reply) b (room, (h, same), p) = elim (pick-cases i b.pending) [
  | inl e ↦ rw e (room, (h, same), p)
  | inr (q, others, e) ↦ rw e (
      settle-Tracked q reply record b { pending = others }
        (room, ((All-pick (IsCurrent room b.controller) i b.pending q others h e).1, same), p))
]

run_from : (es : List Event) (b : Board) → Tracked b → Tracked (run es b)
unfolding run
run_from [] b h = h
run_from (e ∷ es) b h = run_from es (step e b) (step-Tracked e b h)

-- After any course of events from the hook's start on, while the panel is in a room, a reply to a
-- request that was made for another room does not change the participants that are shown, nor the
-- error unless it is a refusal: a status other than 404 and those of success.
pub run-shown :
    (es : List Event) (i : ℕ) (reply : Reply) (q : Request) (others : List Request)
    → pick i (run es no_board).pending ≡ some (q, others)
    → in_room (run es no_board).room_id ≡ true
    → (run es no_board).room_id ≢ some q.room
    → ((step (replied i reply) (run es no_board)).participants ≡ (run es no_board).participants)
      × ((is_refusal reply ≡ true)
          ⊎ ((step (replied i reply) (run es no_board)).error ≡ (run es no_board).error))
unfolding Tracks Tracked step settle_picked settle
run-shown es i reply q others e inside elsewhere =
    let (room, (h, same), p) = run_from es no_board (none, (tt, refl), inl refl) in
    elim (All-pick (IsCurrent room _) i (run es no_board).pending q others h e).0 [
      | inl aborted ↦
          rw (e, aborted) (settle_aborted-frame reply record (run es no_board) { pending = others })
      | inr (_, inl left) ↦ absurd cc
      | inr (_, inr own) ↦ absurd (elsewhere (same ∙ own))
    ]
