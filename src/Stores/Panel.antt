-- ===== src/Stores/Panel.antt =====
-- The panel store: bsg-frontend/apps/extension/stores/usePanelStore.ts.
use bsg.Prelude.{Bool, false}

pub record PanelState : Type 0 where
  pub is_panel_hovered : Bool
  pub is_folded : Bool

abbrev pub panel_store_init : PanelState
panel_store_init = record { is_panel_hovered = false; is_folded = false }

abbrev pub set_is_panel_hovered : Bool → PanelState → PanelState
set_is_panel_hovered b s = record s { is_panel_hovered = b }

abbrev pub set_is_folded : Bool → PanelState → PanelState
set_is_folded b s = record s { is_folded = b }
