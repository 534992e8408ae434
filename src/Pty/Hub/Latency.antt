-- ===== src/Pty/Hub/Latency.antt =====
-- What a flush leaves behind.
use weftgrid.Base.{
  ℕ, ◌-◌, ◌<◌, ◌≡◌, ◌≢◌, true, Option, none, some, [], bytes_discrete, arith, length, ◌⊎◌,
}
use weftgrid.Base.Maps.{lookup, IsMap}
use weftgrid.Pty.Coalescer.{Coalescer, is_empty, is_flush_due}
use weftgrid.Pty.Coalescer
use weftgrid.Pty.Hub.{PaneId, PaneEntry, Hub, flushed, is_finished, flush_due}
use weftgrid.Pty.Hub.Flush.{left_of, flush_due_at}

-- What is still buffered is small and young.
pub record IsWaiting (now : ℕ) (e : PaneEntry) : Type 0 where
  pub small : (e.coalescer.buf ≡ []) ⊎ (length e.coalescer.buf < e.coalescer.size_cap)
  pub young :
      (start : ℕ)
      → e.coalescer.first_push ≡ some start
      → (e.coalescer.buf ≡ []) ⊎ (now - start < e.coalescer.window)
  pub pending_close : e.closed ≡ true → e.coalescer.buf ≢ []

left_of-IsWaiting :
    (now : ℕ) (o : Option PaneEntry) (e : PaneEntry) → left_of now o ≡ some e → IsWaiting now e
unfolding flushed is_finished is_flush_due Coalescer.take
left_of-IsWaiting now none e h = cc
left_of-IsWaiting now (some x) e h = record {
  small = ground arith;
  young = λ start f. ground arith;
  pending_close = ground arith;
}

-- In a hub with one entry for each pane, a pane that a flush leaves registered has nothing
-- buffered, or less than the size cap and for less than the window; and if its reader has ended,
-- it does have something left to send.
pub flush_due-IsWaiting :
    (h : Hub) (now : ℕ) (p : PaneId) (e : PaneEntry)
    → IsMap h.panes
    → lookup bytes_discrete p (flush_due h now).0.panes ≡ some e
    → IsWaiting now e
flush_due-IsWaiting h now p e u found =
    let at_pane = flush_due_at h now p u in
    left_of-IsWaiting now (lookup bytes_discrete p h.panes) e (rw (← at_pane.1) found)
