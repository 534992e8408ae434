-- ===== src/Tests/PtyManager.antt =====
-- Tests of the PTY manager.
use weftgrid.Base.{
  ℕ, ◌≡◌, refl, Bool, true, false, Option, none, some, List, [], ◌∷◌, Bytes, bytes_discrete, arith,
}
use weftgrid.Base.Results.{ok, err}
use weftgrid.Base.Text.{codes}
use weftgrid.Pty.Reader.{contains}
use weftgrid.Pty.Manager.{
  SpawnOptions, Terminal, PtyManager, with_limits, spawn, pool_full_text, size_of, handle_of,
}
use weftgrid.Pty.Manager.Events.{reading, step}
use weftgrid.Pty.Manager.Interleaving.{
  LockStep, at_rest, registers_pane, asks_pool, withdraws, takes_handle, drops_entry, tells_end,
  leaves, stores, reads_bytes, pauses, ticks, advance_all,
}
use weftgrid.Pty.Manager.Interleaving.Feeding.{IsFed}
use weftgrid.Pty.Manager.Interleaving.Runs.{advance_all-IsFed, at_rest-IsFed}
use weftgrid.Pty.Manager.Errors.{spawn-drops_live}

abbrev pane : Bytes
pane = codes "p"

abbrev options : SpawnOptions
options = record { shell = none; cwd = none; rows = 0; cols = 100 }

abbrev terminal : Terminal
terminal = record {
  openpty = ok tt;
  spawn_command = ok (some 42);
  try_clone_reader = ok tt;
  take_writer = ok tt;
  shell_variable = none;
}

abbrev new_manager : PtyManager
new_manager = with_limits 2 8 1024

default_rows_test : (size_of options).rows ≡ 24
unfolding size_of
default_rows_test = refl

-- Two spawns of one pane at once, of which one is refused, while the first reader ends.
abbrev crossing : List LockStep
crossing =
    registers_pane pane
    ∷ registers_pane pane
    ∷ asks_pool pane
    ∷ reads_bytes 0 pane (codes "$ ")
    ∷ pauses pane true
    ∷ tells_end pane
    ∷ asks_pool pane
    ∷ leaves pane
    ∷ stores pane (handle_of options terminal)
    ∷ ticks 9
    ∷ withdraws pane
    ∷ takes_handle pane
    ∷ drops_entry pane
    ∷ []

crossing_test :
    advance_all (at_rest new_manager) crossing
    ≡ at_rest (record new_manager {
      hub = (advance_all (at_rest new_manager) crossing).manager.hub;
      asked = (advance_all (at_rest new_manager) crossing).manager.asked;
    })
unfolding advance_all contains weftgrid.Base.Maps.lookup weftgrid.Pty.Manager.set_pause
    bytes_discrete weftgrid.Base.ℕ_discrete weftgrid.Pty.Reader.spawn_reader
    weftgrid.Base.Maps.insert weftgrid.Base.Maps.remove weftgrid.Pty.Reader.release
    weftgrid.Pty.Reader.discard
crossing_test = refl

advance_all-IsFed_example : IsFed (advance_all (at_rest new_manager) crossing)
advance_all-IsFed_example =
    advance_all-IsFed (at_rest new_manager) crossing (at_rest-IsFed 2 8 1024)

-- A manager with a live pane.
abbrev live_manager : PtyManager
live_manager = (spawn new_manager pane options terminal).0

spawn-drops_live_example :
    ((spawn live_manager pane options terminal).1
      ≡ err (pool_full_text live_manager.pool.cap live_manager.pool.count))
    × ((spawn live_manager pane options terminal).0.panes ≡ live_manager.panes)
    × ((spawn live_manager pane options terminal).0.pool ≡ live_manager.pool)
    × (step (spawn live_manager pane options terminal).0 (reading 5 pane (codes "out"))
        ≡ (spawn live_manager pane options terminal).0)
unfolding spawn contains bytes_discrete weftgrid.Base.ℕ_discrete weftgrid.Pty.Reader.spawn_reader
spawn-drops_live_example =
    spawn-drops_live live_manager pane options terminal 42 5 (codes "out") refl refl
