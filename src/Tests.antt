-- ===== src/Tests.antt =====
-- Runs of the model on concrete inputs, and each theorem with a hypothesis or a binder applied to one.
mod Notify
mod Pty
mod PtyManager
mod Reliability
mod Redaction
mod Ssh
mod Config
mod AgentRpc
mod Rpc
mod Sidebar
mod Browser
mod Import
