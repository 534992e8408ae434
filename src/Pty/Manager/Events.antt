-- ===== src/Pty/Manager/Events.antt =====
-- The calls of the manager, the reader threads and the flusher as one step function.
use weftgrid.Base.{ℕ, Bool, if◌then◌else◌, Bytes}
use weftgrid.Pty.Hub.{PaneId, on_data, on_eof, flush_due}
use weftgrid.Pty.Reader.{release, contains}
use weftgrid.Pty.Manager.{
  SpawnOptions, Answer, Terminal, PtyManager, spawn, write, resize, kill, set_pause,
}

-- The calls of the front end, what a reader thread does, and the flusher's tick.
pub data Event : Type 0 where
  spawning : PaneId → SpawnOptions → Terminal → Event
  writing : PaneId → Bytes → Answer → Answer → Event
  resizing : PaneId → ℕ → ℕ → Answer → Event
  killing : PaneId → Answer → Event
  pausing : PaneId → Bool → Event
  reading : ℕ → PaneId → Bytes → Event
  finishing : PaneId → Event
  ticking : ℕ → Event

-- Only a pane with a live reader is read; a reader that finishes tells the hub, then the pool.
unfoldable pub step : PtyManager → Event → PtyManager
step m (spawning p opts os) = (spawn m p opts os).0
step m (writing p d w f) = (write m p d w f).0
step m (resizing p rows cols r) = (resize m p rows cols r).0
step m (killing p r) = (kill m p r).0
step m (pausing p value) = (set_pause m p value).0
step m (reading now p d) =
    if contains p m.pool.active then record m { hub = on_data m.hub now p d } else m
step m (finishing p) =
    if contains p m.pool.active
    then record m { hub = on_eof m.hub p; pool = release m.pool p }
    else m
step m (ticking now) = record m { hub = (flush_due m.hub now).0 }
