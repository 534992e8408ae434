-- ===== src/Pty.antt =====
-- The PTY track (src-tauri/src/pty): the coalescing layer and the reader pool.
pub mod Coalescer
pub mod Hub
pub mod Reader
pub mod Manager
