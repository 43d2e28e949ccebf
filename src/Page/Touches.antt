-- ===== src/Page/Touches.antt =====
-- Which edits the page reports: `isEditingKey`, `reportTouch` and `handleEditorInput` of
-- bsg-frontend/extension/contentScript.js. `toLowerCase` is modelled within ASCII.
pub mod Once
use bsg.Prelude.{
  ℕ, ◌+◌, Bool, true, false, ◌&&◌, ◌||◌, not, Option, none, some, List, [], ◌∷◌, ◌==◌,
  if◌then◌else◌, Text, codes, text_eq, mem_text, map, nonempty, leb, all, length,
}
use bsg.Navigation.{parse_problem_slug}

abbrev pub inert_keys : List Text
inert_keys =
    codes "Shift"
    ∷ codes "Control"
    ∷ codes "Alt"
    ∷ codes "Meta"
    ∷ codes "CapsLock"
    ∷ codes "Tab"
    ∷ codes "Escape"
    ∷ codes "ArrowUp"
    ∷ codes "ArrowDown"
    ∷ codes "ArrowLeft"
    ∷ codes "ArrowRight"
    ∷ codes "Home"
    ∷ codes "End"
    ∷ codes "PageUp"
    ∷ codes "PageDown"
    ∷ codes "Insert"
    ∷ codes "ContextMenu"
    ∷ codes "NumLock"
    ∷ codes "ScrollLock"
    ∷ codes "Pause"
    ∷ []

abbrev is_digit_char : ℕ → Bool
is_digit_char c = leb b'0' c && leb c b'9'

-- /^F\d{1,2}$/
abbrev pub is_function_key : Text → Bool
is_function_key (f ∷ d ∷ []) = f == b'F' && is_digit_char d
is_function_key (f ∷ d ∷ e ∷ []) = f == b'F' && (is_digit_char d && is_digit_char e)
is_function_key key = false

abbrev lower : ℕ → ℕ
lower c = if leb b'A' c && leb c b'Z' then c + 32 else c

abbrev pub chord_keys : List Text
chord_keys = codes "v" ∷ codes "x" ∷ codes "z" ∷ codes "y" ∷ []

pub record KeyPress : Type 0 where
  pub key : Text
  pub ctrl_key : Bool
  pub meta_key : Bool

unfoldable pub is_editing_key : KeyPress → Bool
is_editing_key e =
    if mem_text e.key inert_keys || is_function_key e.key
    then false
    else if e.ctrl_key || e.meta_key
    then mem_text (map lower e.key) chord_keys
    else true

-- A `keydown` or a `paste`, whether its target is inside the editor, and the page's path by then.
pub data Input : Type 0 where
  keydown : KeyPress → Bool → Text → Input
  paste : Bool → Text → Input

-- `reportedTouches`, and the slugs that the worker was told, newest first.
pub record Touches : Type 0 where
  pub reported_touches : List Text
  pub sent : List Text

abbrev pub report : Option Text → Touches → Touches
report none t = t
report (some slug) t =
    if not (nonempty slug) || mem_text slug t.reported_touches
    then t
    else record { reported_touches = slug ∷ t.reported_touches; sent = slug ∷ t.sent }

unfoldable pub report_touch : Text → Touches → Touches
report_touch pathname t = report (parse_problem_slug pathname) t

unfoldable pub handle_editor_input : Input → Touches → Touches
unfolding is_editing_key report_touch
handle_editor_input (keydown e in_editor pathname) t =
    if not in_editor then t else if not (is_editing_key e) then t else report_touch pathname t
handle_editor_input (paste in_editor pathname) t =
    if not in_editor then t else report_touch pathname t

unfoldable pub handle_all : List Input → Touches → Touches
handle_all [] t = t
handle_all (e ∷ es) t = handle_all es (handle_editor_input e t)
