-- ===== src/Chat/Input.antt =====
-- The message box: `handleChange` and `insertEmoji` of
-- bsg-frontend/apps/extension/hooks/useChatSocket.ts. Heights and the caret are not modelled.
use bsg.Prelude.{
  ℕ, ◌≤◌, ◌<◌, Bool, true, false, List, [], ◌∷◌, ◌++◌, ◌≡◌, ◌⊎◌, inl, inr, refl, arith, Text,
  length, take, drop, length-take-le, leb-false, leb, ltb, if◌then◌else◌, Bool-cases, leb→le,
}

abbrev pub max_chars : ℕ
max_chars = 500

-- The text, whether the limit is flashing, and whether a timer is set to end that.
pub record InputState : Type 0 where
  pub input_text : Text
  pub at_limit : Bool
  pub timer : Bool

abbrev flash : InputState → InputState
flash s = record s { at_limit = true; timer = true }

unfoldable pub handle_change : Text → InputState → InputState
handle_change new_text s =
    if leb (length new_text) max_chars
    then record s { input_text = new_text }
    else if ltb (length s.input_text) max_chars
    then flash (record s { input_text = take max_chars new_text })
    else flash s

-- inputText.slice(0, start) + emoji + inputText.slice(end)
abbrev pub splice : ℕ → ℕ → Text → Text → Text
splice start end emoji text = take start text ++ (emoji ++ drop end text)

unfoldable pub insert_emoji : ℕ → ℕ → Text → InputState → InputState
insert_emoji start end emoji s =
    let new_text = splice start end emoji s.input_text in
    if leb (length new_text) max_chars
    then record s { input_text = new_text }
    else if ltb (length s.input_text) max_chars
    then flash (record s { input_text = take max_chars new_text })
    else flash s

-- The timer of 500 ms.
unfoldable pub limit_timeout : InputState → InputState
limit_timeout s = record s { at_limit = false; timer = false }

-- The box is not over its limit, and a flashing limit has its timer running.
pub record Fits (s : InputState) : Type 0 where
  pub within : length s.input_text ≤ max_chars
  pub flashing : (s.at_limit ≡ false) ⊎ (s.timer ≡ true)

-- A text that fits replaces what the box held; of one that does not, a box with room left takes the
-- first 500 characters and a full box nothing, and in both cases the limit flashes.
handle_change_result :
    (new_text : Text) (s : InputState)
    → ((length new_text ≤ max_chars)
        × (handle_change new_text s ≡ record s { input_text = new_text }))
      ⊎ ((max_chars < length new_text)
          × ((handle_change new_text s).at_limit ≡ true)
          × ((handle_change new_text s).input_text ≡ (
              if ltb (length s.input_text) max_chars
              then take max_chars new_text
              else s.input_text)))
unfolding handle_change
handle_change_result new_text s = elim (Bool-cases (leb (length new_text) max_chars)) [
  | inl short ↦ inl (leb→le _ _ short, rw short)
  | inr long ↦ elim (Bool-cases (ltb (length s.input_text) max_chars)) [
    | inl free ↦ inr (leb-false _ _ long, rw (long, free), rw (long, free))
    | inr full ↦ inr (leb-false _ _ long, rw (long, full), rw (long, full))
  ]
]

-- What the user and the clock can do to the box.
pub data Edit : Type 0 where
  change : Text → Edit
  emoji : ℕ → ℕ → Text → Edit
  timeout cleared : Edit

pub edit : Edit → InputState → InputState
unfolding handle_change insert_emoji limit_timeout
edit (change t) s = handle_change t s
edit (emoji start end e) s = insert_emoji start end e s
edit timeout s = limit_timeout s
edit cleared s = record s { input_text = [] }

pub edits : List Edit → InputState → InputState
edits [] s = s
edits (e ∷ es) s = edits es (edit e s)

abbrev pub empty_input : InputState
empty_input = record { input_text = []; at_limit = false; timer = false }

-- An emoji goes in as if the text with it had been typed.
pub insert_emoji-handle_change :
    (start end : ℕ) (e : Text) (s : InputState)
    → insert_emoji start end e s ≡ handle_change (splice start end e s.input_text) s
unfolding insert_emoji handle_change
insert_emoji-handle_change start end e s = refl

handle_change-Fits : (t : Text) (s : InputState) → Fits s → Fits (handle_change t s)
unfolding handle_change
handle_change-Fits t s h = elim (Bool-cases (leb (length t) max_chars)) [
  | inl short ↦ rw short (record { within = leb→le _ _ short; flashing = h.flashing })
  | inr long ↦ elim (Bool-cases (ltb (length s.input_text) max_chars)) [
    | inl free ↦
        rw (long, free) (record { within = length-take-le max_chars t; flashing = inr refl })
    | inr full ↦ rw (long, full) (record { within = h.within; flashing = inr refl })
  ]
]

edit-Fits : (e : Edit) (s : InputState) → Fits s → Fits (edit e s)
unfolding edit
edit-Fits (change t) s h = handle_change-Fits t s h
edit-Fits (emoji start end e) s h = handle_change-Fits (splice start end e s.input_text) s h
edit-Fits timeout s h = record { within = h.within; flashing = inl refl }
edit-Fits cleared s h = record { within = omega arith; flashing = h.flashing }

-- Whatever is typed, pasted or inserted, the box never holds more than 500 characters, and a
-- flashing limit always has its timer running.
edits-Fits : (es : List Edit) (s : InputState) → Fits s → Fits (edits es s)
unfolding edits
edits-Fits [] s h = h
edits-Fits (e ∷ es) s h = edits-Fits es (edit e s) (edit-Fits e s h)
