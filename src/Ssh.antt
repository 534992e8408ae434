-- ===== src/Ssh.antt =====
-- The SSH track (src-tauri/src/ssh): the reconnect supervisor, the SOCKS proxy and the host keys.
pub mod Reconnect
pub mod Socks
pub mod Broker
pub mod HostKey
