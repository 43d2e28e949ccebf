-- ===== src/Worker/Touched/Replays.antt =====
-- Replayed rounds: the keys that the panel sends with PROBLEM_PROGRESS_RESET, in the worker of
-- bsg-frontend/extension/background.js.
use bsg.Prelude.{
  ℕ, true, ◌&&◌, Option, none, some, List, [], ◌∷◌, ◌≡◌, ◌∙◌, ◌==◌, refl, ap, arith, if◌then◌else◌,
  Text, text_eq, text_eq_iff, eq_of_text_eq, option_eq, ==_iff, map,
}
use bsg.Prelude.Json.{Json}
use bsg.Events.{round_key}
use bsg.Events.Keys.{IsPlain, StartsAt, round_key_iff}
use bsg.Worker.Touched.{
  SessionStorage, Fate, works, get_rejects, set_rejects, touched, mark_problem_touched,
  reset_touched_problems, TouchRequest, reset, touch, handle, handle_all,
}

-- Reports of touched problems, whatever becomes of their storage calls.
abbrev pub touches : List (Fate × Text) → List (Fate × TouchRequest)
touches ts = map (λ (fate, slug). (fate, touch slug)) ts

touch_round :
    (fate : Fate) (slug : Text) (s : SessionStorage)
    → (handle fate (touch slug) s).touched_slugs_round ≡ s.touched_slugs_round
unfolding handle mark_problem_touched
touch_round fate [] s = refl
touch_round works (c ∷ cs) s = ground arith
touch_round get_rejects (c ∷ cs) s = refl
touch_round set_rejects (c ∷ cs) s = ground arith

touches_round :
    (ts : List (Fate × Text)) (s : SessionStorage)
    → (handle_all (touches ts) s).touched_slugs_round ≡ s.touched_slugs_round
unfolding handle_all
touches_round [] s = refl
touches_round ((fate, slug) ∷ ts) s =
    touches_round ts (handle fate (touch slug) s) ∙ touch_round fate slug s

eq_of_option_eq : (o : Option Text) (t : Text) → option_eq o (some t) ≡ true → o ≡ some t
eq_of_option_eq none t h = absurd cc
eq_of_option_eq (some s) t h = ap some (eq_of_text_eq s t h)

reset_round :
    (key : Text) (s : SessionStorage) → (handle works (reset key) s).touched_slugs_round ≡ some key
unfolding handle reset_touched_problems
reset_round key s = ground (arith, eq_of_option_eq s.touched_slugs_round key)

reset-touched :
    (key : Text) (old : Text) (s : SessionStorage)
    → s.touched_slugs_round ≡ some old
    → touched (handle works (reset key) s) ≡ (if text_eq old key then touched s else [])
unfolding handle reset_touched_problems
reset-touched key old s h = rw h (ground arith)

same_keys :
    (r q : Text) (v w : Json) (ps qs : List Text) (m n : ℕ)
    → IsPlain r
    → IsPlain q
    → StartsAt v m
    → StartsAt w n
    → text_eq (round_key r v ps) (round_key q w qs) ≡ (text_eq r q && m == n)
same_keys r q v w ps qs m n h k hv hw = ground (
  arith,
  text_eq_iff (round_key r v ps) (round_key q w qs),
  round_key_iff r q v w ps qs m n h k hv hw,
  text_eq_iff r q,
  ==_iff m n,
)

touched_after_round_start :
    (r q : Text) (v w : Json) (ps qs : List Text) (m n : ℕ) (ts : List (Fate × Text))
    (s : SessionStorage)
    → IsPlain r
    → IsPlain q
    → StartsAt v m
    → StartsAt w n
    → let before = handle_all (touches ts) (handle works (reset (round_key r v ps)) s) in
      touched (handle works (reset (round_key q w qs)) before)
      ≡ (if text_eq r q && m == n then touched before else [])
touched_after_round_start r q v w ps qs m n ts s h k hv hw =
    let key = round_key r v ps in
    let before = handle_all (touches ts) (handle works (reset key) s) in
    rw (← same_keys r q v w ps qs m n h k hv hw) (
      reset-touched (round_key q w qs) key before
        (touches_round ts (handle works (reset key) s) ∙ reset_round key s))
