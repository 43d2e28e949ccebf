-- ===== src/Page/Touches/Once.antt =====
-- How often the page reports a problem: bsg-frontend/extension/contentScript.js.
use bsg.Prelude.{
  Bool, true, false, ◌&&◌, ◌||◌, not, Option, none, some, List, [], ◌∷◌, ◌≡◌, ◌∙◌, ap, refl, arith,
  if◌then◌else◌, Text, text_eq, eq_of_text_eq, mem_text, nonempty, Bool-cases, inl, inr,
}
use bsg.Navigation.{parse_problem_slug}
use bsg.Page.Touches.{
  is_editing_key, Input, keydown, paste, Touches, report, report_touch, handle_editor_input,
  handle_all,
}

-- No text is there twice.
abbrev pub Distinct : List Text → Type 0
Distinct [] = Unit
Distinct (s ∷ ss) = (mem_text s ss ≡ false) × Distinct ss

-- The problem that an input edits.
abbrev pub edited : Input → Option Text
unfolding is_editing_key
edited (keydown e in_editor pathname) =
    if in_editor && is_editing_key e then parse_problem_slug pathname else none
edited (paste in_editor pathname) = if in_editor then parse_problem_slug pathname else none

abbrev is_edit_of : Text → Option Text → Bool
is_edit_of slug none = false
is_edit_of slug (some s) = nonempty s && text_eq s slug

-- Whether an input among these edits a problem.
abbrev pub edits : Text → List Input → Bool
unfolding edited
edits slug [] = false
edits slug (e ∷ es) = is_edit_of slug (edited e) || edits slug es

handle_edited : (e : Input) (t : Touches) → handle_editor_input e t ≡ report (edited e) t
unfolding handle_editor_input report_touch edited
handle_edited (keydown e true pathname) t = elim (Bool-cases (is_editing_key e)) [
  | inl q ↦ rw q refl
  | inr q ↦ rw q refl
]
handle_edited (keydown e false pathname) t = refl
handle_edited (paste true pathname) t = refl
handle_edited (paste false pathname) t = refl

record Faithful (t : Touches) : Type 0 where
  same : t.sent ≡ t.reported_touches
  distinct : Distinct t.reported_touches

report-Faithful : (o : Option Text) (t : Touches) → Faithful t → Faithful (report o t)
report-Faithful none t h = h
report-Faithful (some s) t h =
    elim (Bool-cases (not (nonempty s) || mem_text s t.reported_touches)) [
      | inl e ↦ rw e h
      | inr e ↦
          rw e record { same = ap (λ ss. s ∷ ss) h.same; distinct = (ground arith, h.distinct) }
    ]

report_mem :
    (o : Option Text) (t : Touches) (slug : Text)
    → mem_text slug (report o t).reported_touches
      ≡ (is_edit_of slug o || mem_text slug t.reported_touches)
report_mem none t slug = refl
report_mem (some s) t slug = ground (arith, eq_of_text_eq s slug)

handle_all-Faithful : (es : List Input) (t : Touches) → Faithful t → Faithful (handle_all es t)
unfolding handle_all
handle_all-Faithful [] t h = h
handle_all-Faithful (e ∷ es) t h =
    rw (handle_all, handle_edited e t)
      (handle_all-Faithful es (report (edited e) t) (report-Faithful (edited e) t h))

handle_all_mem :
    (es : List Input) (t : Touches) (slug : Text)
    → mem_text slug (handle_all es t).reported_touches
      ≡ (edits slug es || mem_text slug t.reported_touches)
unfolding handle_all edits
handle_all_mem [] t slug = refl
handle_all_mem (e ∷ es) t slug =
    ap (λ u. mem_text slug (handle_all es u).reported_touches) (handle_edited e t)
    ∙ ground (arith, handle_all_mem es (report (edited e) t) slug, report_mem (edited e) t slug)

or_with_false : (b : Bool) → (b || false) ≡ b
or_with_false true = refl
or_with_false false = refl

abbrev pub no_touches : Touches
no_touches = record { reported_touches = []; sent = [] }

-- Whatever is typed and pasted on however many problems, the page reports each problem at most
-- once, and exactly those that an editing input in the editor was on.
pub handle_all-sent :
    (es : List Input) (slug : Text)
    → Distinct (handle_all es no_touches).sent
      × (mem_text slug (handle_all es no_touches).sent ≡ edits slug es)
handle_all-sent es slug =
    let f = handle_all-Faithful es no_touches record { same = refl; distinct = tt } in
    rw f.same (f.distinct, handle_all_mem es no_touches slug ∙ or_with_false (edits slug es))
