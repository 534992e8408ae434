-- ===== src/Pty/Manager.antt =====
-- src-tauri/src/pty/mod.rs and pty/commands.rs: the panes with their terminals, over the reader pool
-- and the hub. The answers of the operating system are arguments, and what it is asked of a pane is
-- the trace `asked`, oldest first. A call of the manager is not interleaved with another.
pub mod Events
pub mod Opening
pub mod Interleaving
pub mod Errors
use weftgrid.Base.{
  ℕ, ◌+◌, ◌≡◌, Bool, true, false, Option, none, some, List, [], ◌∷◌, ◌++◌, if◌then◌else◌, ◌==◌,
  Bytes, bytes_discrete,
}
use weftgrid.Base.Decimal.{decimal}
use weftgrid.Base.Maps.{lookup, insert, remove}
use weftgrid.Base.Results.{Result, ok, err, ◌>>=◌}
use weftgrid.Base.Text.{codes}
use weftgrid.Pty.Hub.{PaneId, Hub, register, remove_pane}
use weftgrid.Pty.Hub
use weftgrid.Pty.Reader.{ReaderPool, Spawned, started, pool_full, spawn_reader}
use weftgrid.Pty.Reader

pub record SpawnOptions : Type 0 where
  pub shell : Option Bytes
  pub cwd : Option Bytes
  pub rows : ℕ
  pub cols : ℕ

pub record PtySize : Type 0 where
  pub rows : ℕ
  pub cols : ℕ

pub record PaneHandle : Type 0 where
  pub pause : Bool
  pub shell : Bytes
  pub cwd : Option Bytes
  pub size : PtySize

-- What a pane's terminal or child is asked.
pub data OsCall : Type 0 where
  write_all : Bytes → OsCall
  flush : OsCall
  resize_to : PtySize → OsCall
  kill_child : OsCall

-- What an operating system call returns: nothing, or the text of its error.
abbrev pub Answer : Type 0
Answer = Result (Unit {0}) Bytes

-- The answers that one `spawn` gets, and the variable SHELL. A child may have no process id.
pub record Terminal : Type 0 where
  pub openpty : Answer
  pub spawn_command : Result (Option ℕ) Bytes
  pub try_clone_reader : Answer
  pub take_writer : Answer
  pub shell_variable : Option Bytes

pub record PtyManager : Type 0 where
  pub panes : List (PaneId × PaneHandle)
  pub pool : ReaderPool
  pub hub : Hub
  pub asked : List (PaneId × OsCall)

abbrev pub with_limits : ℕ → ℕ → ℕ → PtyManager
with_limits cap window size_cap = record {
  panes = [];
  pool = Reader.new cap;
  hub = Hub.new window size_cap;
  asked = [];
}

unfoldable pub no_pane : PaneId → Bytes
no_pane pane = codes "unknown pane: " ++ pane

abbrev pub map_err {ℓ} : {A : Type ℓ} → Bytes → Result A Bytes → Result A Bytes
map_err label (ok a) = ok a
map_err label (err e) = err (label ++ e)

abbrev pub unwrap_or {ℓ} : {A : Type ℓ} → Option A → A → A
unwrap_or none d = d
unwrap_or (some a) d = a

-- On systems other than Windows.
unfoldable pub default_shell : Terminal → Bytes
default_shell os = unwrap_or os.shell_variable (codes "/bin/sh")

unfoldable pub size_of : SpawnOptions → PtySize
size_of opts = record {
  rows = if opts.rows == 0 then 24 else opts.rows;
  cols = if opts.cols == 0 then 80 else opts.cols;
}

-- The steps of `spawn` before the pane is registered: the process id of the child.
unfoldable pub open_terminal : Terminal → Result ℕ Bytes
open_terminal os = map_err (codes "openpty failed: ") os.openpty >>= λ _.
    map_err (codes "spawn shell failed: ") os.spawn_command >>= λ child.
    map_err (codes "clone reader failed: ") os.try_clone_reader >>= λ _.
    map_err (codes "take writer failed: ") os.take_writer >>= λ _. ok (unwrap_or child 0)

unfoldable pub handle_of : SpawnOptions → Terminal → PaneHandle
unfolding size_of default_shell
handle_of opts os = record {
  pause = false;
  shell = unwrap_or opts.shell (default_shell os);
  cwd = opts.cwd;
  size = size_of opts;
}

-- The text of a `ReaderPoolFull`.
unfoldable pub pool_full_text : ℕ → ℕ → Bytes
pool_full_text cap active =
    codes "reader pool full: "
    ++ decimal active
    ++ codes "/"
    ++ decimal cap
    ++ codes " panes have live readers"

-- The end of `spawn`, by what `spawn_reader` returned. The hub has the pane registered by now.
unfoldable pub after_reader :
    PtyManager → PaneId → PaneHandle → ℕ → ReaderPool × Spawned → PtyManager × Result ℕ Bytes
unfolding pool_full_text
after_reader m pane handle pid (pool, started) =
    (record m { panes = insert bytes_discrete pane handle m.panes; pool = pool }, ok pid)
after_reader m pane handle pid (pool, pool_full cap active) =
    (record m { pool = pool; hub = remove_pane m.hub pane }, err (pool_full_text cap active))

unfoldable pub after_terminal :
    PtyManager → PaneId → PaneHandle → Result ℕ Bytes → PtyManager × Result ℕ Bytes
unfolding after_reader
after_terminal m pane handle (err e) = (m, err e)
after_terminal m pane handle (ok pid) =
    after_reader (record m { hub = register m.hub pane }) pane handle pid (spawn_reader m.pool pane)

unfoldable pub spawn : PtyManager → PaneId → SpawnOptions → Terminal → PtyManager × Result ℕ Bytes
unfolding after_terminal open_terminal handle_of
spawn m pane opts os = after_terminal m pane (handle_of opts os) (open_terminal os)

abbrev pub ask : PtyManager → PaneId → OsCall → PtyManager
ask m pane c = record m { asked = m.asked ++ (pane, c) ∷ [] }

-- `write` at a pane that is there, by the answer to `write_all`.
unfoldable pub written : PtyManager → PaneId → Answer → Answer → PtyManager × Answer
written m pane (err e) flushed = (m, err (codes "write failed: " ++ e))
written m pane (ok _) flushed = (ask m pane flush, map_err (codes "flush failed: ") flushed)

unfoldable pub write_found :
    PtyManager → PaneId → Bytes → Answer → Answer → Option PaneHandle → PtyManager × Answer
unfolding written no_pane
write_found m pane d w f none = (m, err (no_pane pane))
write_found m pane d w f (some handle) = written (ask m pane (write_all d)) pane w f

unfoldable pub write : PtyManager → PaneId → Bytes → Answer → Answer → PtyManager × Answer
unfolding write_found
write m pane d w f = write_found m pane d w f (lookup bytes_discrete pane m.panes)

abbrev pub put_handle : PtyManager → PaneId → PaneHandle → PtyManager
put_handle m pane handle = record m { panes = insert bytes_discrete pane handle m.panes }

unfoldable pub resized : PtyManager → PaneId → PtySize → PaneHandle → Answer → PtyManager × Answer
resized m pane size handle (err e) = (m, err (codes "resize failed: " ++ e))
resized m pane size handle (ok _) = (put_handle m pane (record handle { size = size }), ok tt)

unfoldable pub resize_found :
    PtyManager → PaneId → PtySize → Answer → Option PaneHandle → PtyManager × Answer
unfolding resized no_pane
resize_found m pane size r none = (m, err (no_pane pane))
resize_found m pane size r (some handle) = resized (ask m pane (resize_to size)) pane size handle r

unfoldable pub resize : PtyManager → PaneId → ℕ → ℕ → Answer → PtyManager × Answer
unfolding resize_found
resize m pane rows cols r =
    resize_found m pane (record { rows = rows; cols = cols }) r (lookup bytes_discrete pane m.panes)

unfoldable pub kill_found : PtyManager → PaneId → Answer → Option PaneHandle → PtyManager × Answer
unfolding no_pane
kill_found m pane r none = (m, err (no_pane pane))
kill_found m pane r (some handle) = (
  ask (record m { panes = remove bytes_discrete pane m.panes; hub = remove_pane m.hub pane }) pane
      kill_child,
  map_err (codes "kill failed: ") r,
)

unfoldable pub kill : PtyManager → PaneId → Answer → PtyManager × Answer
unfolding kill_found
kill m pane r = kill_found m pane r (lookup bytes_discrete pane m.panes)

unfoldable pub pause_found : PtyManager → PaneId → Bool → Option PaneHandle → PtyManager × Answer
unfolding no_pane
pause_found m pane value none = (m, err (no_pane pane))
pause_found m pane value (some handle) =
    (put_handle m pane (record handle { pause = value }), ok tt)

unfoldable pub set_pause : PtyManager → PaneId → Bool → PtyManager × Answer
unfolding pause_found
set_pause m pane value = pause_found m pane value (lookup bytes_discrete pane m.panes)

abbrev pub pause : PtyManager → PaneId → PtyManager × Answer
pause m pane = set_pause m pane true

abbrev pub resume : PtyManager → PaneId → PtyManager × Answer
resume m pane = set_pause m pane false

abbrev paused_or_false : Option PaneHandle → Bool
paused_or_false none = false
paused_or_false (some handle) = handle.pause

unfoldable pub is_paused : PtyManager → PaneId → Bool
is_paused m pane = paused_or_false (lookup bytes_discrete pane m.panes)

pub record PaneState : Type 0 where
  pub pane_id : PaneId
  pub cwd : Option Bytes
  pub shell : Bytes
  pub rows : ℕ
  pub cols : ℕ
  pub scrollback : Option Bytes

unfoldable pub state_of : PaneId → Option Bytes → Option PaneHandle → Result PaneState Bytes
unfolding no_pane
state_of pane scrollback none = err (no_pane pane)
state_of pane scrollback (some handle) = ok (record {
  pane_id = pane;
  cwd = handle.cwd;
  shell = handle.shell;
  rows = handle.size.rows;
  cols = handle.size.cols;
  scrollback = scrollback;
})

-- `serialize_pane_state`, with `pane_info` in it.
unfoldable pub serialize_pane_state : PtyManager → PaneId → Option Bytes → Result PaneState Bytes
unfolding state_of
serialize_pane_state m pane scrollback =
    state_of pane scrollback (lookup bytes_discrete pane m.panes)
