-- ===== src/Pty/Manager/Interleaving.antt =====
-- The manager with its locks apart: each step holds one lock of the hub, the pool or the map of panes,
-- and the steps of different calls and threads come in any order (pty/mod.rs, pty/reader.rs).
pub mod Feeding
pub mod Calls
pub mod Runs
use weftgrid.Base.{
  ℕ, Bool, not, Option, none, some, List, [], ◌∷◌, Bytes, bytes_discrete, ite, if◌then◌else◌, ◌&&◌,
}
use weftgrid.Base.Maps.{lookup, insert, remove}
use weftgrid.Pty.Hub.{PaneId, register, remove_pane, on_data, on_eof, flush_due}
use weftgrid.Pty.Reader.{
  ReaderPool, Spawned, started, pool_full, spawn_reader, release, contains, discard,
}
use weftgrid.Pty.Manager.{PaneHandle, Answer, PtyManager, write, resize, set_pause, ask, kill_child}

-- The manager, and where the calls and threads stand that are under way: the spawns that have
-- registered, that were refused and have yet to remove their entry, and that were admitted and have yet
-- to store their handle; the kills that have yet to remove an entry; the readers that have told of
-- their end and have yet to leave the pool.
pub record System : Type 0 where
  pub manager : PtyManager
  pub spawning : List PaneId
  pub withdrawing : List PaneId
  pub storing : List PaneId
  pub dropping : List PaneId
  pub leaving : List PaneId

abbrev pub at_rest : PtyManager → System
at_rest m = record {
  manager = m;
  spawning = [];
  withdrawing = [];
  storing = [];
  dropping = [];
  leaving = [];
}

-- One lock each: `spawn` registers, is admitted or refused, and stores its handle or withdraws; `kill`
-- takes the handle and then drops the entry; a reader reads, tells of its end, and leaves.
pub data LockStep : Type 0 where
  registers_pane asks_pool withdraws takes_handle drops_entry tells_end leaves : PaneId → LockStep
  stores : PaneId → PaneHandle → LockStep
  reads_bytes : ℕ → PaneId → Bytes → LockStep
  writes : PaneId → Bytes → Answer → Answer → LockStep
  resizes : PaneId → ℕ → ℕ → Answer → LockStep
  pauses : PaneId → Bool → LockStep
  ticks : ℕ → LockStep

-- One of the calls under way on a pane goes on.
unfoldable pub drop_one : PaneId → List PaneId → List PaneId
drop_one p [] = []
drop_one p (q ∷ qs) = ite (bytes_discrete q p) qs (q ∷ drop_one p qs)

-- What `spawn_reader` returned decides how a spawn goes on.
unfoldable pub admitted : System → PaneId → ReaderPool × Spawned → System
unfolding drop_one
admitted s q (pool, started) = record s {
  manager = record s.manager { pool = pool };
  spawning = drop_one q s.spawning;
  storing = q ∷ s.storing;
}
admitted s q (pool, pool_full cap active) = record s {
  manager = record s.manager { pool = pool };
  spawning = drop_one q s.spawning;
  withdrawing = q ∷ s.withdrawing;
}

-- `kill`, by what the map of panes has.
unfoldable pub taken : System → PaneId → Option PaneHandle → System
taken s q none = s
taken s q (some handle) = record s {
  manager = record s.manager { panes = remove bytes_discrete q s.manager.panes };
  dropping = q ∷ s.dropping;
}

-- A step of a call or a thread that does not stand there does nothing.
unfoldable pub advance : System → LockStep → System
unfolding admitted taken
advance s (registers_pane q) = record s {
  manager = record s.manager { hub = register s.manager.hub q };
  spawning = q ∷ s.spawning;
}
advance s (asks_pool q) =
    if contains q s.spawning then admitted s q (spawn_reader s.manager.pool q) else s
advance s (withdraws q) =
    if contains q s.withdrawing
    then record s {
      manager = record s.manager { hub = remove_pane s.manager.hub q };
      withdrawing = drop_one q s.withdrawing;
    }
    else s
advance s (stores q handle) =
    if contains q s.storing
    then record s {
      manager = record s.manager { panes = insert bytes_discrete q handle s.manager.panes };
      storing = drop_one q s.storing;
    }
    else s
advance s (takes_handle q) = taken s q (lookup bytes_discrete q s.manager.panes)
advance s (drops_entry q) =
    if contains q s.dropping
    then record s {
      manager = ask (record s.manager { hub = remove_pane s.manager.hub q }) q kill_child;
      dropping = drop_one q s.dropping;
    }
    else s
advance s (reads_bytes now q d) =
    if contains q s.manager.pool.active && not (contains q s.leaving)
    then record s { manager = record s.manager { hub = on_data s.manager.hub now q d } }
    else s
advance s (tells_end q) =
    if contains q s.manager.pool.active && not (contains q s.leaving)
    then record s {
      manager = record s.manager { hub = on_eof s.manager.hub q };
      leaving = q ∷ s.leaving;
    }
    else s
advance s (leaves q) =
    if contains q s.leaving
    then record s {
      manager = record s.manager { pool = release s.manager.pool q };
      leaving = discard q s.leaving;
    }
    else s
advance s (writes q d w f) = record s { manager = (write s.manager q d w f).0 }
advance s (resizes q rows cols r) = record s { manager = (resize s.manager q rows cols r).0 }
advance s (pauses q value) = record s { manager = (set_pause s.manager q value).0 }
advance s (ticks now) = record s {
  manager = record s.manager { hub = (flush_due s.manager.hub now).0 };
}

unfoldable pub advance_all : System → List LockStep → System
unfolding advance
advance_all s [] = s
advance_all s (e ∷ es) = advance_all (advance s e) es
