-- ===== src/Pty/Manager/Interleaving/Calls.antt =====
-- Calls whose steps follow each other without others between them.
use weftgrid.Base.{
  ℕ, ◌≡◌, refl, true, false, Option, none, some, [], ◌∷◌, bytes_discrete, if_pos, inl, inr,
}
use weftgrid.Base.Maps.{lookup}
use weftgrid.Base.Results.{ok}
use weftgrid.Pty.Hub.{PaneId}
use weftgrid.Pty.Reader.{contains}
use weftgrid.Pty.Manager.{
  SpawnOptions, Terminal, PtyManager, PaneHandle, Answer, open_terminal, handle_of, spawn,
  after_terminal, after_reader, kill, kill_found,
}
use weftgrid.Pty.Manager.Interleaving.{
  at_rest, registers_pane, asks_pool, stores, withdraws, takes_handle, drops_entry, drop_one,
  admitted, taken, advance, advance_all,
}
use weftgrid.Pty.Manager.Interleaving.Feeding.{spawn_reader-new}

contains-one : (q : PaneId) → contains q (q ∷ []) ≡ true
unfolding contains
contains-one q = if_pos (bytes_discrete q q) refl true false

contains-none : (q : PaneId) → contains q [] ≡ false
unfolding contains
contains-none q = refl

drop_one-one : (q : PaneId) → drop_one q (q ∷ []) ≡ []
unfolding drop_one
drop_one-one q = if_pos (bytes_discrete q q) refl [] (q ∷ [])

-- The steps of `spawn`, once the terminal is open, make what `spawn` as a whole makes.
pub spawn-advance_all :
    (m : PtyManager) (q : PaneId) (opts : SpawnOptions) (os : Terminal) (pid : ℕ)
    → open_terminal os ≡ ok pid
    → advance_all
        (at_rest m)
        (registers_pane q ∷ asks_pool q ∷ stores q (handle_of opts os) ∷ withdraws q ∷ [])
      ≡ at_rest (spawn m q opts os).0
unfolding advance_all advance admitted spawn after_terminal after_reader
spawn-advance_all m q opts os pid e = elim (spawn_reader-new m.pool q) [
  | inl (r, _) ↦ rw (contains-one q, e, r, contains-one q, contains-none q, drop_one-one q) refl
  | inr r ↦ rw (contains-one q, e, r, contains-none q, contains-one q, drop_one-one q) refl
]

-- The steps of `kill` make what `kill` as a whole makes.
kill-advance_all :
    (m : PtyManager) (q : PaneId) (a : Answer) (o : Option PaneHandle)
    → lookup bytes_discrete q m.panes ≡ o
    → advance_all (at_rest m) (takes_handle q ∷ drops_entry q ∷ []) ≡ at_rest (kill m q a).0
unfolding advance_all advance taken kill kill_found
kill-advance_all m q a none e = rw (e, contains-none q) refl
kill-advance_all m q a (some handle) e = rw (e, contains-one q, drop_one-one q) refl
