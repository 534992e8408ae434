-- ===== src/Reliability.antt =====
-- The reliability track (src-tauri/src/reliability): recovery decisions and log retention.
pub mod Backoff
pub mod Guard
pub mod Seams
pub mod Cdp
pub mod Exit
pub mod Rotation
pub mod Redaction
