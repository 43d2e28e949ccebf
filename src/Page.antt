-- ===== src/Page.antt =====
-- The content script on LeetCode's page: bsg-frontend/extension/contentScript.js.
pub mod Touches
pub mod Widths
pub mod Themes
