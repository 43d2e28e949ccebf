-- ===== src/Page/Widths.antt =====
-- The width of the panel beside LeetCode's page: bsg-frontend/extension/contentScript.js from
-- `MIN_PANEL_WIDTH` to `syncPanelWidth`, and its messages FOLD, UNFOLD and MAXIMIZE. Widths are
-- whole pixels, and a fraction of the window is an exact quotient. `inner` is `window.innerWidth`,
-- which is not 0. The older key `panelWidth` comes in as the fraction that `initPanelWidth` derives
-- from it.
pub mod Usable
use bsg.Prelude.{
  ℕ, suc, ◌+◌, ◌*◌, ◌/◌, min, max, Bool, true, false, ◌&&◌, ◌||◌, not, Option, none, some, ltb, leb,
  ◌==◌, if◌then◌else◌, or_else, List, [], ◌∷◌,
}

abbrev pub min_panel_width : ℕ
min_panel_width = 36

abbrev pub collapse_width : ℕ
collapse_width = 120

-- COLLAPSE_WIDTH + 40
abbrev pub min_expand_width : ℕ
min_expand_width = 160

pub record Fraction : Type 0 where
  pub num : ℕ
  pub den : ℕ

-- The keys of `chrome.storage.local` for the panel.
pub record StoredPanel : Type 0 where
  pub is_panel_folded : Option Bool
  pub is_panel_maximized : Option Bool
  pub panel_width_fraction : Option Fraction
  pub pre_maximize_fraction : Option Fraction

pub record Panel : Type 0 where
  pub panel_folded : Bool
  pub panel_maximized : Bool
  pub pre_maximize_fraction : Fraction
  pub panel_width_fraction : Fraction
  -- panel.style.width
  pub width : ℕ
  -- whether the layout is that of `applyMaximizedLayout`
  pub fixed : Bool
  -- whether the handle can be seen
  pub handle : Bool
  pub stored : StoredPanel

-- Math.round(fraction * window.innerWidth)
abbrev pub pixels : Fraction → ℕ → ℕ
pixels f inner = (2 * f.num * inner + f.den) / (2 * f.den)

abbrev pub clamp_width : ℕ → ℕ → ℕ
clamp_width inner width = max min_panel_width (min inner width)

abbrev pub apply_panel_width : ℕ → ℕ → Panel → Panel
apply_panel_width inner px p = record p { width = clamp_width inner px }

-- The object that setPanelWidth stores.
abbrev store_width : Bool → Panel → Panel
store_width folded p = record p {
  stored = record p.stored {
    is_panel_folded = some folded;
    is_panel_maximized = some p.panel_maximized;
    panel_width_fraction = some p.panel_width_fraction;
  };
}

abbrev expanded : ℕ → ℕ → Panel → Panel
expanded inner width p = record p {
  panel_width_fraction = record { num = min width inner; den = inner };
  panel_maximized = if ltb (width + 1) inner then false else p.panel_maximized;
}

unfoldable pub set_panel_width : ℕ → ℕ → Bool → Panel → Panel
set_panel_width inner px true p =
    store_width true (apply_panel_width inner min_panel_width record p { panel_folded = true })
set_panel_width inner px false p = store_width false (
    expanded inner (clamp_width inner px)
      (apply_panel_width inner px record p { panel_folded = false }))

unfoldable pub request_width : ℕ → ℕ → Panel → Panel
unfolding set_panel_width
request_width inner px p =
    if leb px collapse_width
    then set_panel_width inner min_panel_width true p
    else set_panel_width inner px false p

unfoldable pub sync_panel_width : ℕ → Panel → Panel
unfolding request_width
sync_panel_width inner p =
    if p.panel_folded
    then p
    else if p.panel_maximized
    then record p { width = inner }
    else request_width inner (pixels p.panel_width_fraction inner) p

-- A pointer at some distance from the panel's right edge, while dragging.
unfoldable pub drag_to : ℕ → ℕ → Panel → Panel
unfolding request_width
drag_to inner distance p = request_width inner (clamp_width inner distance) p

unfoldable pub fold_panel : ℕ → Panel → Panel
unfolding set_panel_width
fold_panel inner p = set_panel_width inner min_panel_width true p

-- A stored fraction that is greater than 0.
abbrev pub positive_or : Option Fraction → Fraction → Fraction
positive_or none f = f
positive_or (some g) f = if ltb 0 g.num then g else f

abbrev pub restore_fraction : Panel → Panel
restore_fraction p = record p {
  panel_width_fraction = positive_or p.stored.panel_width_fraction p.panel_width_fraction;
  panel_folded = false;
  stored = record p.stored { is_panel_folded = some false };
}

unfoldable pub unfold_panel : ℕ → Panel → Panel
unfolding request_width
unfold_panel inner p =
    request_width inner
      (max min_expand_width (pixels (restore_fraction p).panel_width_fraction inner))
      (restore_fraction p)

abbrev enter_maximized : ℕ → Panel → Panel
enter_maximized inner p = record p {
  pre_maximize_fraction = p.panel_width_fraction;
  panel_folded = false;
  panel_maximized = true;
  panel_width_fraction = record { num = 1; den = 1 };
  handle = false;
  fixed = true;
  width = inner;
  stored = record p.stored {
    is_panel_folded = some false;
    is_panel_maximized = some true;
    pre_maximize_fraction = some p.panel_width_fraction;
  };
}

abbrev leave_maximized : ℕ → Panel → Panel
leave_maximized inner p = record p {
  panel_folded = false;
  panel_maximized = false;
  panel_width_fraction = p.pre_maximize_fraction;
  handle = true;
  fixed = false;
  width = max min_expand_width (pixels p.pre_maximize_fraction inner);
  stored = record p.stored { is_panel_folded = some false; is_panel_maximized = some false };
}

unfoldable pub maximize : ℕ → Panel → Panel
maximize inner p = if p.panel_maximized then leave_maximized inner p else enter_maximized inner p

abbrev initial : StoredPanel → Fraction → Bool → ℕ → Panel
initial s f folded inner = record {
  panel_folded = folded || leb (pixels f inner) collapse_width;
  panel_maximized = or_else s.is_panel_maximized false;
  pre_maximize_fraction = positive_or s.pre_maximize_fraction record { num = 1; den = 4 };
  panel_width_fraction = f;
  width = if folded || leb (pixels f inner) collapse_width then min_panel_width else pixels f inner;
  fixed = false;
  handle = true;
  stored = record s { is_panel_folded = some folded; panel_width_fraction = some f };
}

abbrev resume_maximized : ℕ → Panel → Panel
resume_maximized inner p =
    if p.panel_maximized then record p { handle = false; fixed = true; width = inner } else p

-- initPanelWidth and the layout behind it; `legacy` is the fraction of a width in the old format.
unfoldable pub init_panel : Fraction → ℕ → StoredPanel → Panel
init_panel legacy inner s =
    resume_maximized inner (
      initial s (positive_or s.panel_width_fraction legacy) (or_else s.is_panel_folded false) inner)

pub data Action : Type 0 where
  drag : ℕ → Action
  resize fold_message unfold_message maximize_message : Action

unfoldable pub act : ℕ → Action → Panel → Panel
unfolding drag_to sync_panel_width fold_panel unfold_panel maximize
act inner (drag distance) p = drag_to inner distance p
act inner resize p = sync_panel_width inner p
act inner fold_message p = fold_panel inner p
act inner unfold_message p = unfold_panel inner p
act inner maximize_message p = maximize inner p

-- What is done with the panel, each with the width that the window then has.
unfoldable pub run : List (ℕ × Action) → Panel → Panel
run [] p = p
run ((inner, a) ∷ rest) p = run rest (act inner a p)
