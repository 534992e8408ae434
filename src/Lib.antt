-- ===== src/Lib.antt =====
-- A model of weftgrid's core, the Rust code of src-tauri/src, with its correctness theorems.
--
-- The program is a terminal multiplexer with browser panes. A reader thread of a pane (pty/reader.rs)
-- gives its reads to the coalescer hub (pty/coalescer.rs), which sends batches to the front end; the
-- front end hands the bytes to the notification track (notify/), which finds OSC sequences in them and
-- keeps the latest notification of each pane. Workspaces and trusted commands are kept by config/,
-- pushed metadata by sidebar/. Sessions to remote hosts go through ssh/, agents connect through
-- agent_rpc/, and reliability/ decides on recoveries after crashes. The PTY manager (pty/mod.rs) starts
-- the readers and registers their panes with the hub; browser/ keeps an overlay window for each browser
-- pane, and import/ takes cookies over from other browsers. The `weft` client (crates/weft-cli) sends
-- its commands to the agent RPC server.
--
-- Files, and what each models (paths under src-tauri/src):
--   Base            names of the libraries passed on, lists, maps, sorting, texts, bits and numbers
--   Notify/Scanner  notify/scanner.rs: OscScanner, push
--   Notify/Osc      notify/osc.rs: parse_notification, build_osc9, build_osc777, build_osc99
--   Notify/Manager  notify/manager.rs: record (record_parsed here), mark_read, clear, snapshot and the rest
--   Notify/Ingest   notify/mod.rs and notify/commands.rs: scan, notify_ingest_bytes
--   Pty/Coalescer, Pty/Hub   pty/coalescer.rs: Coalescer; CoalescerHub, flush_due, on_data, on_eof
--   Pty/Reader      pty/reader.rs: ReaderPool, spawn_reader, read_loop
--   Pty/Manager     pty/mod.rs: PtyManager; pty/commands.rs: serialize_pane_state
--   Pty/Manager/Interleaving   spawn and kill of pty/mod.rs and the reader threads of pty/reader.rs,
--                   one step for each lock that they take
--   Reliability/Backoff, Guard, Seams, Cdp, Exit, Rotation   reliability/recovery.rs and the files that
--                   it serves: webview_recovery.rs, overlay_recovery.rs, cdp_reconnect.rs, pty_watchdog.rs,
--                   recovery/pty.rs; rotation.rs
--   Ssh/Reconnect, Ssh/Socks, Ssh/Broker   ssh/reconnect.rs, ssh/socks.rs, ssh/socks_broker.rs
--   Ssh/HostKey     ssh/host_key.rs
--   Config/Store    config/workspace_store.rs: add, remove, reorder, select, set_group, snapshot
--   Config/Sha256, Config/Trust   config/weft_trust.rs, with the command id of config/weft_config.rs
--   Config/Migration, Config/Keybindings   config/migration.rs, config/keybindings.rs
--   Config/Files    config/store.rs: save, load, and the disks between the calls of a save
--   Reliability/Redaction   reliability/redaction.rs
--   AgentRpc/Frame, AgentRpc/Token   agent_rpc/protocol.rs and agent_rpc/auth.rs
--   AgentRpc/Dispatch, AgentRpc/Server   agent_rpc/dispatch.rs, agent_rpc/commands.rs, agent_rpc/server.rs
--   AgentRpc/Client   crates/weft-cli/src, beside src-tauri
--   Sidebar         sidebar/state.rs, sidebar/mod.rs, sidebar/report_receiver.rs
--   Sidebar/Ports   sidebar/port_scanner.rs
--   Browser/Windows, Browser/Overlay   browser/tauri-window-spawner.rs; browser/overlay-manager.rs,
--                   browser/overlay-recreate-state-transfer.rs and browser/commands.rs
--   Import/Dedupe, Import/Catalog, Import/Detect, Import/Cookies   import/dedupe.rs, import/catalog.rs,
--                   import/cookies.rs, import/consent.rs and import/commands.rs
--   Tests           runs on concrete inputs, and the theorems applied to some
--
-- Correspondence: a struct is a record and its methods are functions that return the new state. A call
-- of a component that holds one mutex throughout is one step, so that a run of it is a list of calls.
-- spawn and kill of the PTY manager take the locks of the hub, the pool and the panes one after
-- another: Pty/Manager has each as a whole, and Pty/Manager/Interleaving has their parts, which other
-- calls and the reader threads may come between. The overlay manager lets go of its lock between the
-- parts of create, navigate, set_visible, destroy and recreate; these are modelled as a whole, one call
-- after another, and what two of them do at once is not. A HashMap is an
-- association list. Bytes and texts are lists of numbers, a text being its UTF-8 bytes. Ids are texts or
-- numbers. Times and durations are numbers. A u32 or u64 that the source adds to wraps where it is
-- written out (% 2 ^ 32, % 2 ^ 64). Sinks, notifiers and injected seams are traces of the calls to them
-- or functions on a state of their own. Floating-point numbers, the canonical paths of the file system
-- and the printing of IP addresses are parameters. So are serde, the URL parser, trimming and lower case
-- of the standard library, and the answers of the operating system and of Tauri, each call's its own.
-- Code with a part for each system is the part for Linux.
--
-- Fuel: run_reconnect has one round more than max_attempts, which counts up to it; the loops of Sha256
-- have one round for each byte of the buffer, of which each takes 64, and 64 rounds for the padding;
-- the migration loop is given its rounds, of which it takes at most one; a number below 2 ^ 64 has at
-- most 20 decimal digits; the scans of the redaction have one round for each byte of the line, of
-- which each takes at least one.
--
-- Not modelled: system access (sockets, the accept loop, the files but for the answers of a save),
-- the serialization by serde, the Tauri commands that only pass a call on, the physical bounds of
-- overlays, which are floating-point, the reading of history databases, the git probe of the
-- sidebar, the layout tree, the palette, the session file, logging, and the front end.
mod Base
mod Tests
pub mod Notify
pub mod Pty
pub mod Reliability
pub mod Ssh
pub mod Config
pub mod AgentRpc
pub mod Sidebar
pub mod Browser
pub mod Import
