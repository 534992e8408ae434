-- ===== src/Browser.antt =====
-- The browser track (src-tauri/src/browser): the overlay windows and the entries kept about them.
pub mod Windows
pub mod Overlay
pub mod Keeping
pub mod Tracking
pub mod Recreate
