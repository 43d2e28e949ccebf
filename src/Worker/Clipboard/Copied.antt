-- ===== src/Worker/Clipboard/Copied.antt =====
-- What a copy leaves: bsg-frontend/extension/background.js, bsg-frontend/extension/offscreen.js and
-- bsg-frontend/apps/extension/hooks/useCopyCode.ts.
use bsg.Prelude.{
  ◌≤◌, Bool, true, false, none, some, List, [], ◌∷◌, ◌≡◌, refl, subst, if◌then◌else◌, Text,
  nonempty, ◌⊎◌, inl, inr, Bool-cases, arith,
}
use bsg.Worker.Clipboard.{
  CopyState, CopyFate, ensure_offscreen, offscreen_copy, worker_copy, copy_through, do_copy,
  do_local_copy, on_response, send_code, copy_room_code, CopyEvent, copies, timed_out, restarted,
  step, run,
}

-- The answer tells whether the clipboard holds the text, or what it held.
abbrev pub Answers : Text → Text → Bool × CopyState → Type 0
Answers text old r =
    ((r.0 ≡ true) × (r.1.clipboard ≡ text)) ⊎ ((r.0 ≡ false) × (r.1.clipboard ≡ old))

ensure_offscreen-clipboard :
    (f : CopyFate) (w : CopyState) → (ensure_offscreen f w).1.clipboard ≡ w.clipboard
unfolding ensure_offscreen
ensure_offscreen-clipboard f w = ground arith

worker_copy-Answers :
    (f : CopyFate) (text : Text) (w : CopyState) → Answers text w.clipboard (worker_copy f text w)
worker_copy-Answers f text w = ground arith

offscreen_copy-Answers :
    (f : CopyFate) (text : Text) (w : CopyState)
    → Answers text w.clipboard (offscreen_copy f text w)
unfolding offscreen_copy
offscreen_copy-Answers f text w = ground arith

copy_through-Answers :
    (f : CopyFate) (text : Text) (r : Bool × CopyState)
    → Answers text r.1.clipboard (copy_through f text r)
unfolding copy_through
copy_through-Answers f text (false, w) = worker_copy-Answers f text w
copy_through-Answers f text (true, w) = elim (Bool-cases f.delivers) [
  | inl e ↦ rw e (offscreen_copy-Answers f text w)
  | inr e ↦ rw e (worker_copy-Answers f text w)
]

-- The worker answers that a text is copied exactly if it is, whichever calls of the browser fail, and
-- else leaves the clipboard.
pub do_copy-Answers :
    (f : CopyFate) (text : Text) (w : CopyState) → Answers text w.clipboard (do_copy f text w)
unfolding do_copy
do_copy-Answers f text w =
    subst (λ old. Answers text old (do_copy f text w)) (ensure_offscreen-clipboard f w)
      (copy_through-Answers f text (ensure_offscreen f w))

abbrev pub Copied : CopyFate → Text → Text → CopyState → Type 0
Copied f code old w =
    (w.is_copied ≡ true)
    × ((w.clipboard ≡ code) ⊎ ((w.clipboard ≡ old) × (f.panel_command ≡ false)))

do_local_copy-Copied :
    (f : CopyFate) (code old : Text) (w : CopyState)
    → (w.clipboard ≡ code) ⊎ (w.clipboard ≡ old)
    → Copied f code old (do_local_copy f code w)
do_local_copy-Copied f code old w h = elim (Bool-cases f.panel_command) [
  | inl e ↦ rw e (refl, inl refl)
  | inr e ↦ elim h [ inl c ↦ rw e (refl, inl c) | inr o ↦ rw e (refl, inr (o, refl)) ]
]

on_response-Copied :
    (f : CopyFate) (code old : Text) (r : Bool × CopyState)
    → Answers code old r
    → Copied f code old (on_response f code r)
on_response-Copied f code old (ok, w) (inl (o, c)) = elim (Bool-cases f.panel_answered) [
  | inl e ↦ rw (e, o) (refl, inl c)
  | inr e ↦ rw e (do_local_copy-Copied f code old w (inl c))
]
on_response-Copied f code old (ok, w) (inr (o, c)) = elim (Bool-cases f.panel_answered) [
  | inl e ↦ rw (e, o) (do_local_copy-Copied f code old w (inr c))
  | inr e ↦ rw e (do_local_copy-Copied f code old w (inr c))
]

-- Behind a copy of a code that is not empty, the panel shows the code as copied, and the clipboard
-- holds it, or what it held, and then the last resort, the panel's own command, failed too.
pub copy_room_code-Copied :
    (f : CopyFate) (code : Text) (w : CopyState)
    → nonempty code ≡ true
    → Copied f code w.clipboard (copy_room_code f (some code) w)
unfolding copy_room_code send_code
copy_room_code-Copied f code w full = elim (Bool-cases f.panel_sends) [
  | inl e ↦
      rw (full, e)
        (on_response-Copied f code w.clipboard (do_copy f code w) (do_copy-Answers f code w))
  | inr e ↦ rw (full, e) (do_local_copy-Copied f code w.clipboard w (inr refl))
]

-- The worker's note of the document is right, and at most one was made.
record IsSingle (w : CopyState) : Type 0 where
  noted : (w.offscreen_created ≡ false) ⊎ (w.has_document ≡ true)
  single : w.documents ≤ (if w.has_document then 1 else 0)

ensure_offscreen-IsSingle :
    (f : CopyFate) (w : CopyState) → IsSingle w → IsSingle (ensure_offscreen f w).1
unfolding ensure_offscreen
ensure_offscreen-IsSingle f w h = ground arith

copy_through-IsSingle :
    (f : CopyFate) (text : Text) (r : Bool × CopyState)
    → IsSingle r.1
    → IsSingle (copy_through f text r).1
unfolding copy_through
copy_through-IsSingle f text (false, w) h = ground arith
copy_through-IsSingle f text (true, w) h = ground arith

on_response-IsSingle :
    (f : CopyFate) (code : Text) (r : Bool × CopyState)
    → IsSingle r.1
    → IsSingle (on_response f code r)
on_response-IsSingle f code (ok, w) h = ground arith

step-IsSingle : (e : CopyEvent) (w : CopyState) → IsSingle w → IsSingle (step e w)
unfolding step copy_room_code send_code do_copy
step-IsSingle (copies f none) w h = h
step-IsSingle (copies f (some code)) w h = elim (Bool-cases (nonempty code)) [
  | inl full ↦ elim (Bool-cases f.panel_sends) [
    | inl e ↦
        rw (full, e)
          (on_response-IsSingle f code (copy_through f code (ensure_offscreen f w))
            (copy_through-IsSingle f code (ensure_offscreen f w) (ensure_offscreen-IsSingle f w h)))
    | inr e ↦ rw (full, e) (ground arith)
  ]
  | inr empty ↦ rw empty h
]
step-IsSingle timed_out w h = record { noted = h.noted; single = h.single }
step-IsSingle restarted w h = record { noted = inl refl; single = h.single }

run-IsSingle : (es : List CopyEvent) (w : CopyState) → IsSingle w → IsSingle (run es w)
unfolding run
run-IsSingle [] w h = h
run-IsSingle (e ∷ es) w h = run-IsSingle es (step e w) (step-IsSingle e w h)
