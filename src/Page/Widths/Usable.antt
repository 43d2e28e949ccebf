-- ===== src/Page/Widths/Usable.antt =====
-- The panel is a narrow bar or wide enough to use: bsg-frontend/extension/contentScript.js.
use bsg.Prelude.{
  ℕ, ◌<◌, max, Bool, true, false, ◌||◌, ◌≡◌, ◌⊎◌, inl, inr, refl, arith, leb, leb-false,
  if◌then◌else◌, or_else, All, List, [], ◌∷◌, Bool-cases,
}
use bsg.Page.Widths.{
  Fraction, StoredPanel, Panel, pixels, clamp_width, positive_or, restore_fraction, run,
  set_panel_width, request_width, sync_panel_width, drag_to, fold_panel, unfold_panel, maximize,
  init_panel, Action, drag, resize, fold_message, unfold_message, maximize_message, act,
}

-- Folded to the narrow bar, or unfolded and wider than the width below which the panel collapses.
abbrev pub IsUsable : Panel → Type 0
IsUsable p =
    ((p.panel_folded ≡ true) × (p.width ≡ 36)) ⊎ ((p.panel_folded ≡ false) × (120 < p.width))

if_P :
    (P : Panel → Type 0) (b : Bool) {x y : Panel}
    → (b ≡ true → P x)
    → (b ≡ false → P y)
    → P (if b then x else y)
if_P P true f _ = f refl
if_P P false _ g = g refl

-- The panel as initPanelWidth leaves it: folded if it was, or if it would be too narrow.
opened_at :
    (folded : Bool) (px : ℕ)
    → ((folded || leb px 120 ≡ true) × ((if folded || leb px 120 then 36 else px) ≡ 36))
      ⊎ ((folded || leb px 120 ≡ false) × (120 < (if folded || leb px 120 then 36 else px)))
opened_at true px = inl (refl, refl)
opened_at false px = elim (Bool-cases (leb px 120)) [
  | inl narrow ↦ rw narrow (inl (refl, refl))
  | inr enough ↦ rw enough (inr (refl, omega (arith, leb-false px 120 enough)))
]

module _ (inner : ℕ) (wide : 120 < inner) where
  set_panel_width-IsUsable :
      (px : ℕ) (folded : Bool) (p : Panel) → 120 < px → IsUsable (set_panel_width inner px folded p)
  unfolding set_panel_width
  set_panel_width-IsUsable px true p h = inl (refl, omega arith)
  set_panel_width-IsUsable px false p h = inr (refl, omega arith)

  request_width-IsUsable : (px : ℕ) (p : Panel) → IsUsable (request_width inner px p)
  unfolding request_width set_panel_width
  request_width-IsUsable px p = elim (Bool-cases (leb px 120)) [
    | inl narrow ↦ rw narrow (inl (refl, omega arith))
    | inr enough ↦ rw enough (inr (refl, omega (arith, leb-false px 120 enough)))
  ]

  act-IsUsable : (a : Action) (p : Panel) → IsUsable p → IsUsable (act inner a p)
  unfolding act drag_to sync_panel_width fold_panel unfold_panel maximize set_panel_width
  act-IsUsable (drag distance) p h = request_width-IsUsable (clamp_width inner distance) p
  act-IsUsable resize p h =
      if_P IsUsable p.panel_folded (λ _. h)
        (λ unfolded.
          if_P IsUsable p.panel_maximized (λ _. inr (unfolded, wide))
            (λ _. request_width-IsUsable (pixels p.panel_width_fraction inner) p))
  act-IsUsable fold_message p h = inl (refl, omega arith)
  act-IsUsable unfold_message p h =
      request_width-IsUsable (max 160 (pixels (restore_fraction p).panel_width_fraction inner))
        (restore_fraction p)
  act-IsUsable maximize_message p h =
      if_P IsUsable p.panel_maximized (λ _. inr (refl, omega arith)) (λ _. inr (refl, wide))

  initial-IsUsable :
      (legacy : Fraction) (s : StoredPanel)
      → or_else s.is_panel_maximized false ≡ false
      → IsUsable (init_panel legacy inner s)
  unfolding init_panel
  initial-IsUsable legacy s h = simp (h) (
      opened_at (or_else s.is_panel_folded false)
        (pixels (positive_or s.panel_width_fraction legacy) inner))

run_from :
    (steps : List (ℕ × Action)) (p : Panel)
    → All (λ e. 120 < e.0) steps
    → IsUsable p
    → IsUsable (run steps p)
unfolding run
run_from [] p _ h = h
run_from ((inner, a) ∷ rest) p (wide, ws) h =
    run_from rest (act inner a p) ws (act-IsUsable inner wide a p h)

-- Opened in a window, and then used in windows whose widths may differ, the panel is a bar of 36
-- pixels, folded, or unfolded and wider than 120 pixels, where each of the windows is wider than
-- 120 pixels and the panel is not stored as maximized.
pub run-IsUsable :
    (legacy : Fraction) (s : StoredPanel) (inner : ℕ) (steps : List (ℕ × Action))
    → 120 < inner
    → All (λ e. 120 < e.0) steps
    → or_else s.is_panel_maximized false ≡ false
    → IsUsable (run steps (init_panel legacy inner s))
run-IsUsable legacy s inner steps w ws h =
    run_from steps (init_panel legacy inner s) ws (initial-IsUsable inner w legacy s h)
