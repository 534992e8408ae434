-- ===== src/Notify.antt =====
-- The notification track (src-tauri/src/notify).
pub mod Scanner
pub mod Osc
pub mod Manager
pub mod Ingest
