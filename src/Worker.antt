-- ===== src/Worker.antt =====
-- The extension's background worker: bsg-frontend/extension/background.js.
pub mod Touched
pub mod Submissions
pub mod Socket
pub mod Clipboard
