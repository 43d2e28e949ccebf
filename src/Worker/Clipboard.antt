-- ===== src/Worker/Clipboard.antt =====
-- Copying a room's code: bsg-frontend/apps/extension/hooks/useCopyCode.ts, `ensureOffscreen`,
-- `doCopy` and the COPY_TO_CLIPBOARD branch of bsg-frontend/extension/background.js, and
-- bsg-frontend/extension/offscreen.js. What becomes of the browser's calls is an argument.
pub mod Copied
use bsg.Prelude.{
  ℕ, suc, Bool, true, false, ◌&&◌, not, Option, none, some, List, [], ◌∷◌, if◌then◌else◌, Text,
  nonempty,
}

pub record CopyState : Type 0 where
  pub clipboard : Text
  -- the worker's offscreenCreated
  pub offscreen_created : Bool
  -- whether the browser has an offscreen document of the extension, and how many were made
  pub has_document : Bool
  pub documents : ℕ
  -- isCopied of the panel
  pub is_copied : Bool

-- For one copy, what there is and which calls succeed.
pub record CopyFate : Type 0 where
  pub has_offscreen_api : Bool
  pub asks_document : Bool
  pub creates_document : Bool
  -- the message to the offscreen document is answered
  pub delivers : Bool
  pub offscreen_writes : Bool
  -- execCommand('copy') in the offscreen document; none is a throw
  pub offscreen_command : Option Bool
  pub worker_writes : Bool
  -- the panel has chrome.runtime.sendMessage, which does not throw, and gets an answer
  pub panel_sends : Bool
  pub panel_answered : Bool
  pub panel_command : Bool

abbrev pub make_document : CopyState → CopyState
make_document w = record w { has_document = true; documents = suc w.documents }

abbrev pub created : Bool × CopyState → Bool × CopyState
created (true, w) = (true, record w { offscreen_created = true })
created (false, w) = (false, w)

abbrev pub create_if_missing : CopyFate → CopyState → Bool × CopyState
create_if_missing f w =
    if w.has_document
    then (true, w)
    else if f.creates_document
    then (true, make_document w)
    else (false, w)

unfoldable pub ensure_offscreen : CopyFate → CopyState → Bool × CopyState
ensure_offscreen f w =
    if w.offscreen_created
    then (true, w)
    else if f.has_offscreen_api && f.asks_document
    then created (create_if_missing f w)
    else (false, w)

abbrev pub write_text : Text → CopyState → CopyState
write_text text w = record w { clipboard = text }

abbrev pub run_command : Option Bool → Text → CopyState → Bool × CopyState
run_command (some true) text w = (true, write_text text w)
run_command other text w = (false, w)

-- The answer of the offscreen document.
unfoldable pub offscreen_copy : CopyFate → Text → CopyState → Bool × CopyState
offscreen_copy f text w =
    if f.offscreen_writes then (true, write_text text w) else run_command f.offscreen_command text w

abbrev pub worker_copy : CopyFate → Text → CopyState → Bool × CopyState
worker_copy f text w = if f.worker_writes then (true, write_text text w) else (false, w)

abbrev pub copy_through : CopyFate → Text → Bool × CopyState → Bool × CopyState
unfolding offscreen_copy
copy_through f text (false, w) = worker_copy f text w
copy_through f text (true, w) = if f.delivers then offscreen_copy f text w else worker_copy f text w

unfoldable pub do_copy : CopyFate → Text → CopyState → Bool × CopyState
unfolding ensure_offscreen offscreen_copy
do_copy f text w = copy_through f text (ensure_offscreen f w)

abbrev pub mark_copied : CopyState → CopyState
mark_copied w = record w { is_copied = true }

-- doLocalCopy, which does not look at what the command answers.
abbrev pub do_local_copy : CopyFate → Text → CopyState → CopyState
do_local_copy f code w = mark_copied (run_command (some f.panel_command) code w).1

abbrev pub on_response : CopyFate → Text → Bool × CopyState → CopyState
on_response f code (ok, w) =
    if f.panel_answered && ok then mark_copied w else do_local_copy f code w

abbrev pub send_code : CopyFate → Text → CopyState → CopyState
unfolding do_copy
send_code f code w =
    if f.panel_sends then on_response f code (do_copy f code w) else do_local_copy f code w

unfoldable pub copy_room_code : CopyFate → Option Text → CopyState → CopyState
unfolding do_copy
copy_room_code f none w = w
copy_room_code f (some code) w = if nonempty code then send_code f code w else w

pub data CopyEvent : Type 0 where
  copies : CopyFate → Option Text → CopyEvent
  -- the two seconds of markCopied are over
  timed_out : CopyEvent
  -- the service worker starts again, while the document stays
  restarted : CopyEvent

unfoldable pub step : CopyEvent → CopyState → CopyState
unfolding copy_room_code
step (copies f code) w = copy_room_code f code w
step timed_out w = record w { is_copied = false }
step restarted w = record w { offscreen_created = false }

unfoldable pub run : List CopyEvent → CopyState → CopyState
unfolding step
run [] w = w
run (e ∷ es) w = run es (step e w)
