-- ===== src/Pty/Manager/Interleaving/Runs.antt =====
-- The steps under the lock of the map of panes, and runs of all steps.
use weftgrid.Base.{
  ℕ, ◌≡◌, refl, Bool, not, Option, none, some, List, [], ◌∷◌, Bytes, bytes_discrete, arith,
  Bool-cases, inl, inr, ◌&&◌,
}
use weftgrid.Base.Maps.{lookup, IsMap, insert-IsMap, remove-IsMap}
use weftgrid.Base.Results.{ok, err}
use weftgrid.Pty.Hub.{PaneId}
use weftgrid.Pty.Hub.Stream.{step-IsMap, registers, removes, reads, ends, flushes}
use weftgrid.Pty.Hub.Stream
use weftgrid.Pty.Reader.{contains}
use weftgrid.Pty.Manager.{
  PaneHandle, Answer, PtyManager, write, resize, set_pause, written, write_found, resized,
  resize_found, pause_found, PtySize, with_limits,
}
use weftgrid.Pty.Manager.Opening.{is_open-on_data}
use weftgrid.Pty.Manager.Interleaving.{
  System, at_rest, LockStep, registers_pane, asks_pool, withdraws, takes_handle, drops_entry,
  tells_end, leaves, stores, reads_bytes, writes, resizes, pauses, ticks, taken, advance,
  advance_all,
}
use weftgrid.Pty.Manager.Interleaving.Feeding.{
  IsFed, registers-IsFed, ticks-IsFed, withdraws-IsFed, drops-IsFed, tells-IsFed, leaves-IsFed,
  asks-IsFed,
}

-- A step under the lock of the map of panes alone.
abbrev IsAside : PtyManager → PtyManager → Type 0
IsAside m n = (n.hub ≡ m.hub) × (n.pool ≡ m.pool) × IsMap n.panes

aside-IsFed :
    (s : System) (n : PtyManager) → IsAside s.manager n → IsFed s → IsFed (record s { manager = n })
aside-IsFed s n (h, p, i) f = record {
  capped = rw p f.capped;
  hub_map = rw h f.hub_map;
  pane_map = i;
  leaving_live = rw p f.leaving_live;
  fed = rw (h, p) f.fed;
}

write-IsAside :
    (m : PtyManager) (q : PaneId) (d : Bytes) (w x : Answer) (o : Option PaneHandle)
    → IsMap m.panes
    → IsAside m (write_found m q d w x o).0
unfolding write_found written
write-IsAside m q d w x none i = (refl, refl, i)
write-IsAside m q d (ok _) x (some handle) i = (refl, refl, i)
write-IsAside m q d (err e) x (some handle) i = (refl, refl, i)

resize-IsAside :
    (m : PtyManager) (q : PaneId) (size : PtySize) (a : Answer) (o : Option PaneHandle)
    → IsMap m.panes
    → IsAside m (resize_found m q size a o).0
unfolding resize_found resized
resize-IsAside m q size a none i = (refl, refl, i)
resize-IsAside m q size (ok _) (some handle) i =
    (refl, refl, insert-IsMap bytes_discrete q _ m.panes i)
resize-IsAside m q size (err e) (some handle) i = (refl, refl, i)

pause-IsAside :
    (m : PtyManager) (q : PaneId) (value : Bool) (o : Option PaneHandle)
    → IsMap m.panes
    → IsAside m (pause_found m q value o).0
unfolding pause_found
pause-IsAside m q value none i = (refl, refl, i)
pause-IsAside m q value (some handle) i = (refl, refl, insert-IsMap bytes_discrete q _ m.panes i)

-- The lists that the invariant does not read may change.
taken-IsFed : (s : System) (q : PaneId) (o : Option PaneHandle) → IsFed s → IsFed (taken s q o)
unfolding taken
taken-IsFed s q none f = f
taken-IsFed s q (some handle) f = record {
  capped = f.capped;
  hub_map = f.hub_map;
  pane_map = remove-IsMap bytes_discrete q s.manager.panes f.pane_map;
  leaving_live = f.leaving_live;
  fed = f.fed;
}

stores-IsFed :
    (s : System) (q : PaneId) (handle : PaneHandle) → IsFed s → IsFed (advance s (stores q handle))
unfolding advance
stores-IsFed s q handle f = elim (Bool-cases (contains q s.storing)) [
  | inl e ↦ rw e (record {
    capped = f.capped;
    hub_map = f.hub_map;
    pane_map = insert-IsMap bytes_discrete q handle s.manager.panes f.pane_map;
    leaving_live = f.leaving_live;
    fed = f.fed;
  })
  | inr e ↦ rw e f
]

reads-IsFed :
    (s : System) (now : ℕ) (q : PaneId) (d : Bytes)
    → IsFed s
    → IsFed (advance s (reads_bytes now q d))
unfolding advance Stream.step
reads-IsFed s now q d f =
    elim (Bool-cases (contains q s.manager.pool.active && not (contains q s.leaving))) [
      | inl e ↦ rw e (record {
        capped = f.capped;
        hub_map = step-IsMap s.manager.hub (reads now q d) f.hub_map;
        pane_map = f.pane_map;
        leaving_live = f.leaving_live;
        fed = λ p o. f.fed p (rw (is_open-on_data s.manager.hub now q p d f.hub_map) at o);
      })
      | inr e ↦ rw e f
    ]

advance-IsFed : (s : System) (e : LockStep) → IsFed s → IsFed (advance s e)
advance-IsFed s (registers_pane q) f = registers-IsFed s q f
advance-IsFed s (asks_pool q) f = asks-IsFed s q f
advance-IsFed s (withdraws q) f = withdraws-IsFed s q f
advance-IsFed s (stores q handle) f = stores-IsFed s q handle f
advance-IsFed s (takes_handle q) f =
    unfold advance in taken-IsFed s q (lookup bytes_discrete q s.manager.panes) f
advance-IsFed s (drops_entry q) f = drops-IsFed s q f
advance-IsFed s (tells_end q) f = tells-IsFed s q f
advance-IsFed s (leaves q) f = leaves-IsFed s q f
advance-IsFed s (reads_bytes now q d) f = reads-IsFed s now q d f
advance-IsFed s (writes q d w x) f =
    unfold advance write in aside-IsFed s _ (write-IsAside s.manager q d w x _ f.pane_map) f
advance-IsFed s (resizes q rows cols r) f =
    unfold advance resize in aside-IsFed s _ (resize-IsAside s.manager q _ r _ f.pane_map) f
advance-IsFed s (pauses q value) f =
    unfold advance set_pause in aside-IsFed s _ (pause-IsAside s.manager q value _ f.pane_map) f
advance-IsFed s (ticks now) f = ticks-IsFed s now f

-- From a state for which this holds, whatever the front end, the readers and the flusher do, and in
-- whatever order their locks follow each other: every entry of the hub that is not closed has a live
-- reader that has yet to tell of its end, or a spawn of its pane that is not through with the pool
-- and will start a reader or remove the entry; there are at most as many readers as the cap, one for
-- each pane; and no pane is twice in a map.
pub advance_all-IsFed : (s : System) (es : List LockStep) → IsFed s → IsFed (advance_all s es)
unfolding advance_all
advance_all-IsFed s [] f = f
advance_all-IsFed s (e ∷ es) f = advance_all-IsFed (advance s e) es (advance-IsFed s e f)

-- A new manager has the invariant.
pub at_rest-IsFed : (cap window size_cap : ℕ) → IsFed (at_rest (with_limits cap window size_cap))
unfolding lookup contains
at_rest-IsFed cap window size_cap = record {
  capped = record { capped = omega arith; one_each = tt; counted = refl };
  hub_map = tt;
  pane_map = tt;
  leaving_live = λ p o. cc;
  fed = λ p o. cc;
}
