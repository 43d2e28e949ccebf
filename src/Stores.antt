-- ===== src/Stores.antt =====
-- The zustand stores of the extension panel: bsg-frontend/apps/extension/stores.
pub mod Room
pub mod User
pub mod Settings
pub mod Panel
pub mod Counts
