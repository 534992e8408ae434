-- ===== src/Pty/Hub.antt =====
-- src-tauri/src/pty/coalescer.rs, lines 84 to 173: the registry of panes. What the sinks are
-- given is the trace `sent`, oldest first; the map's order is the order of the loop.
pub mod Flush
pub mod Stream
pub mod Delivery
pub mod Latency
use weftgrid.Base.{
  ℕ, ◌+◌, Bool, true, false, ◌&&◌, Option, none, some, List, [], ◌∷◌, ◌++◌, if◌then◌else◌, Bytes,
  bytes_discrete,
}
use weftgrid.Base.Maps.{lookup, insert, remove}
use weftgrid.Pty.Coalescer.{Coalescer, is_empty, is_flush_due}
use weftgrid.Pty.Coalescer

-- an opaque text
abbrev pub PaneId : Type 0
PaneId = Bytes

-- The calls of a `BatchSink`.
pub data SinkCall : Type 0 where
  send_batch : Bytes → SinkCall
  on_closed : SinkCall

pub record PaneEntry : Type 0 where
  pub coalescer : Coalescer
  pub closed : Bool

pub record Hub : Type 0 where
  pub panes : List (PaneId × PaneEntry)
  pub window : ℕ
  pub size_cap : ℕ
  pub sent : List (PaneId × SinkCall)

abbrev pub new : ℕ → ℕ → Hub
new window size_cap = record { panes = []; window = window; size_cap = size_cap; sent = [] }

unfoldable pub register : Hub → PaneId → Hub
register h pane = record h {
  panes =
      insert bytes_discrete pane
        (record { coalescer = Coalescer.new h.window h.size_cap; closed = false }) h.panes;
}

unfoldable pub remove_pane : Hub → PaneId → Hub
remove_pane h pane = record h { panes = remove bytes_discrete pane h.panes }

-- The entry after its turn of the loop.
unfoldable pub flushed : ℕ → PaneEntry → PaneEntry
flushed now e =
    if is_flush_due e.coalescer now
    then record e { coalescer = (Coalescer.take e.coalescer).0 }
    else e

-- Whether the pane is pushed to `finished`.
unfoldable pub is_finished : PaneEntry → Bool
is_finished e = e.closed && is_empty e.coalescer

-- What the entry's sink is told in its turn.
unfoldable pub told : ℕ → PaneEntry → List SinkCall
told now e =
    (if is_flush_due e.coalescer now then send_batch (Coalescer.take e.coalescer).1 ∷ [] else [])
    ++ (if is_finished (flushed now e) then on_closed ∷ [] else [])

abbrev pub addressed : PaneId → List SinkCall → List (PaneId × SinkCall)
addressed pane [] = []
addressed pane (c ∷ cs) = (pane, c) ∷ addressed pane cs

pub record Flushed : Type 0 where
  pub panes : List (PaneId × PaneEntry)
  pub calls : List (PaneId × SinkCall)
  pub batches : ℕ
  pub finished : List PaneId

-- `for (id, entry) in panes.iter_mut()`
unfoldable pub flush_loop : ℕ → List (PaneId × PaneEntry) → Flushed
flush_loop now [] = record { panes = []; calls = []; batches = 0; finished = [] }
flush_loop now ((id, e) ∷ es) =
    let rest = flush_loop now es in
    record {
      panes = (id, flushed now e) ∷ rest.panes;
      calls = addressed id (told now e) ++ rest.calls;
      batches = (if is_flush_due e.coalescer now then 1 else 0) + rest.batches;
      finished = if is_finished (flushed now e) then id ∷ rest.finished else rest.finished;
    }

-- `for id in finished`
unfoldable pub remove_each : List PaneId → List (PaneId × PaneEntry) → List (PaneId × PaneEntry)
remove_each [] m = m
remove_each (id ∷ ids) m = remove_each ids (remove bytes_discrete id m)

unfoldable pub flush_due : Hub → ℕ → Hub × ℕ
flush_due h now =
    let r = flush_loop now h.panes in
    (record h { panes = remove_each r.finished r.panes; sent = h.sent ++ r.calls }, r.batches)

-- The entry, if the pane is there, is changed in place.
unfoldable pub update_found : Hub → PaneId → (PaneEntry → PaneEntry) → Option PaneEntry → Hub
update_found h pane f none = h
update_found h pane f (some e) = record h { panes = insert bytes_discrete pane (f e) h.panes }

-- `now` is what `Instant::now()` returns.
unfoldable pub on_data : Hub → ℕ → PaneId → Bytes → Hub
unfolding update_found
on_data h now pane d =
    update_found h pane (λ e. record e { coalescer = Coalescer.push e.coalescer now d })
      (lookup bytes_discrete pane h.panes)

unfoldable pub on_eof : Hub → PaneId → Hub
unfolding update_found
on_eof h pane =
    update_found h pane (λ e. record e { closed = true }) (lookup bytes_discrete pane h.panes)
