-- ===== src/Pty/Manager/Errors.antt =====
-- What a refused call of the manager leaves as it was.
use weftgrid.Base.{
  ℕ, ◌≡◌, refl, Bool, true, false, Option, none, Bytes, bytes_discrete, arith, if_pos,
}
use weftgrid.Base.Maps.{lookup, lookup-remove}
use weftgrid.Base.Results.{ok, err}
use weftgrid.Pty.Hub.{PaneId, Hub, register, remove_pane, on_data}
use weftgrid.Pty.Reader.{ReaderPool, pool_full, spawn_reader, try_admit, contains}
use weftgrid.Pty.Manager.{
  SpawnOptions, Answer, Terminal, PtyManager, after_reader, after_terminal, open_terminal, spawn,
  write, resize, kill, set_pause,
}
use weftgrid.Pty.Manager.Events.{reading, step}
use weftgrid.Pty.Manager.{no_pane, is_paused, serialize_pane_state, pool_full_text}

-- At a pane that the manager does not have, `write`, `resize`, `kill`, `pause`, `resume` and
-- `serialize_pane_state` are the error "unknown pane: " with the pane's id, ask the system for nothing
-- and leave the manager as it was, whatever the system would have answered; `is_paused` is false.
pub calls-unknown :
    (m : PtyManager) (p : PaneId) (d : Bytes) (a b : Answer) (rows cols : ℕ) (value : Bool)
    (scrollback : Option Bytes)
    → lookup bytes_discrete p m.panes ≡ none
    → (write m p d a b ≡ (m, err (no_pane p)))
      × (resize m p rows cols a ≡ (m, err (no_pane p)))
      × (kill m p a ≡ (m, err (no_pane p)))
      × (set_pause m p value ≡ (m, err (no_pane p)))
      × (serialize_pane_state m p scrollback ≡ err (no_pane p))
      × (is_paused m p ≡ false)
unfolding write resize kill set_pause serialize_pane_state is_paused
calls-unknown m p d a b rows cols value scrollback e =
    (rw e refl, rw e refl, rw e refl, rw e refl, rw e refl, rw e refl)

lookup-remove_pane_self :
    (h : Hub) (p : PaneId) → lookup bytes_discrete p (remove_pane (register h p) p).panes ≡ none
unfolding remove_pane
lookup-remove_pane_self h p = rw (lookup-remove, if_pos (bytes_discrete p p) refl) refl

on_data-unregistered :
    (h : Hub) (now : ℕ) (p : PaneId) (d : Bytes)
    → lookup bytes_discrete p h.panes ≡ none
    → on_data h now p d ≡ h
unfolding on_data
on_data-unregistered h now p d e = rw e refl

spawn_reader-taken :
    (pool : ReaderPool) (p : PaneId)
    → contains p pool.active ≡ true
    → spawn_reader pool p ≡ (pool, pool_full pool.cap pool.count)
unfolding spawn_reader try_admit
spawn_reader-taken pool p h = ground arith

-- When the terminal and the child of a `spawn` come up, but the pane has a live reader already: the
-- call is the error of a full pool and the pane's handle and reader stay, but the hub has lost its
-- entry, so that what the live reader reads from then on changes nothing and is never sent.
pub spawn-drops_live :
    (m : PtyManager) (p : PaneId) (opts : SpawnOptions) (os : Terminal) (pid now : ℕ) (d : Bytes)
    → contains p m.pool.active ≡ true
    → open_terminal os ≡ ok pid
    → ((spawn m p opts os).1 ≡ err (pool_full_text m.pool.cap m.pool.count))
      × ((spawn m p opts os).0.panes ≡ m.panes)
      × ((spawn m p opts os).0.pool ≡ m.pool)
      × (step (spawn m p opts os).0 (reading now p d) ≡ (spawn m p opts os).0)
unfolding spawn after_terminal after_reader step
spawn-drops_live m p opts os pid now d live up =
    rw (up, spawn_reader-taken m.pool p live)
      (
        refl,
        refl,
        refl,
        rw
            (
              live,
              on_data-unregistered (remove_pane (register m.hub p) p) now p d
                  (lookup-remove_pane_self m.hub p),
            )
            refl,
      )
