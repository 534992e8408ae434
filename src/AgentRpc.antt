-- ===== src/AgentRpc.antt =====
-- The agent RPC track (src-tauri/src/agent_rpc) and its client (crates/weft-cli).
pub mod Frame
pub mod Token
pub mod Dispatch
pub mod Server
pub mod Client
