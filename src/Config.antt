-- ===== src/Config.antt =====
-- The configuration track (src-tauri/src/config): workspaces, command trust, chords and the settings file.
pub mod Store
pub mod Sha256
pub mod Trust
pub mod Migration
pub mod Keybindings
pub mod Files
