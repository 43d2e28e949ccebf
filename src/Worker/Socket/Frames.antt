-- ===== src/Worker/Socket/Frames.antt =====
-- What a frame from the server changes in the worker: bsg-frontend/extension/background.js.
use bsg.Prelude.{Bool, true, false, ◌&&◌, Option, none, some, ◌≡◌, refl, if◌then◌else◌, Text, codes}
use bsg.Prelude.Json.{Json, undefined, null, bool, num, str, arr, obj, truthy, is_str, get_opt}
use bsg.World.{LocalStorage}
use bsg.Worker.Socket.{
  WorkerState, take_next_problem, parsed_next_problem, handle_next_problem, on_round_end,
  on_room_expired, on_response_type, on_response, on_message,
}

-- Nothing has changed but the storage, the badge and the notification.
abbrev pub Notes : WorkerState → WorkerState → Type 0
Notes w t =
    (d : LocalStorage) × (badge : Text) × (notified : Bool) × (t
      ≡ record w { storage = d; badge = badge; notified = notified })

if_Notes :
    (w : WorkerState) (b : Bool) (t u : WorkerState)
    → Notes w t
    → Notes w u
    → Notes w (if b then t else u)
if_Notes w true t u p q = p
if_Notes w false t u p q = q

noted :
    (w : WorkerState) (d : LocalStorage) (badge : Text) (notified : Bool)
    → Notes w record w { storage = d; badge = badge; notified = notified }
noted w d badge notified = (d, badge, notified, refl)

unchanged : (w : WorkerState) → Notes w w
unchanged w = noted w w.storage w.badge w.notified

unchanged_but :
    (w t : WorkerState)
    → t ≡ record w { storage = t.storage; badge = t.badge; notified = t.notified }
    → Notes w t
unchanged_but w t e = (t.storage, t.badge, t.notified, e)

take_next_problem-Notes : (v : Json) (w : WorkerState) → Notes w (take_next_problem v w)
take_next_problem-Notes v w = if_Notes w _ _ w (noted w _ _ _) (unchanged w)

module _ (parse : Text → Option Json) where
  handle_next_problem-Notes : (v : Json) (w : WorkerState) → Notes w (handle_next_problem parse v w)
  unfolding handle_next_problem
  handle_next_problem-Notes (str s) w = go (parse s)
    where
      go : (o : Option Json) → Notes w (parsed_next_problem o w)
      go none = unchanged w
      go (some v) = take_next_problem-Notes v w
  handle_next_problem-Notes undefined w = take_next_problem-Notes undefined w
  handle_next_problem-Notes null w = take_next_problem-Notes null w
  handle_next_problem-Notes (bool b) w = take_next_problem-Notes (bool b) w
  handle_next_problem-Notes (num n) w = take_next_problem-Notes (num n) w
  handle_next_problem-Notes (arr xs) w = take_next_problem-Notes (arr xs) w
  handle_next_problem-Notes (obj fs) w = take_next_problem-Notes (obj fs) w

  on_response_type-Notes :
      (kind message : Json) (w : WorkerState) → Notes w (on_response_type parse kind message w)
  unfolding on_response_type
  on_response_type-Notes kind message w =
      if_Notes w (is_str kind (codes "next-problem")) _ _
        (if_Notes w (truthy message && truthy (get_opt message (codes "data")))
          (handle_next_problem parse (get_opt message (codes "data")) w) w
          (handle_next_problem-Notes (get_opt message (codes "data")) w) (unchanged w))
        (if_Notes w (is_str kind (codes "round-end")) (on_round_end w) _
          (unchanged_but w (on_round_end w) refl)
          (if_Notes w (is_str kind (codes "room-expired")) (on_room_expired w) w
            (unchanged_but w (on_room_expired w) refl) (unchanged w)))

  pub on_message-Notes : (frame : Text) (w : WorkerState) → Notes w (on_message parse frame w)
  unfolding on_message
  on_message-Notes frame w = go (parse frame)
    where
      go : (o : Option Json) → Notes w (on_response parse o w)
      go none = unchanged w
      go (some v) = if_Notes w _ _ _ (on_response_type-Notes _ _ w) (unchanged w)
