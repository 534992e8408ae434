-- ===== src/Tests/Pty.antt =====
-- Tests of the PTY track.
use weftgrid.Base.{
  ℕ, ◌+◌, ◌≡◌, refl, true, false, none, some, [], ◌∷◌, ◌++◌, List, Bytes, length, arith,
  bytes_discrete, All,
}
use weftgrid.Base.Maps.{lookup, IsMap}
use weftgrid.Base.Text.{codes}
use weftgrid.Pty.Hub
use weftgrid.Pty.Hub.{
  Hub, PaneEntry, SinkCall, register, on_data, on_eof, flush_due, send_batch, on_closed,
}
use weftgrid.Pty.Hub.Flush.{for_pane}
use weftgrid.Pty.Hub.Stream.{Event, reads, ends, flushes, run, Spares}
use weftgrid.Pty.Hub.Delivery.{Ends, bytes_of, pending, accepted, run_delivers}
use weftgrid.Pty.Hub.Latency.{IsWaiting, flush_due-IsWaiting}
use weftgrid.Pty.Coalescer
use weftgrid.Pty.Reader
use weftgrid.Pty.Reader.{
  ReaderPool, IsCapped, Step, spawns, returns, got, paused, interrupted, run-IsCapped,
}

abbrev pane : Bytes
pane = codes "p"

abbrev entry : PaneEntry
entry = record { coalescer = Coalescer.new 8 1024; closed = false }

abbrev hub : Hub
hub = record { panes = (pane, entry) ∷ []; window = 8; size_cap = 1024; sent = [] }

abbrev events : List Event
events =
    reads 0 pane (codes "ab")
    ∷ flushes 3
    ∷ reads 4 pane (codes "c")
    ∷ flushes 9
    ∷ ends pane
    ∷ flushes 20
    ∷ []

delivered_test : (run hub events).sent ≡ (pane, send_batch (codes "abc")) ∷ (pane, on_closed) ∷ []
unfolding run flush_due on_data on_eof weftgrid.Pty.Hub.Stream.step lookup Hub.remove_each
    Hub.flush_loop bytes_discrete weftgrid.Base.ℕ_discrete weftgrid.Base.Maps.insert Hub.is_finished
    Hub.flushed Coalescer.is_flush_due Coalescer.push Hub.told Coalescer.take
delivered_test = refl

run_delivers_example :
    (cs : List SinkCall) × (for_pane pane (run hub events).sent ≡ for_pane pane hub.sent ++ cs)
    × Ends (lookup bytes_discrete pane (run hub events).panes) cs
    × (bytes_of cs ++ pending (lookup bytes_discrete pane (run hub events).panes)
        ≡ entry.coalescer.buf ++ accepted pane events (some entry))
unfolding lookup bytes_discrete weftgrid.Base.ℕ_discrete
run_delivers_example =
    run_delivers hub pane entry events (tt, tt) refl (tt, (tt, (tt, (tt, (tt, (tt, tt))))))

abbrev young : PaneEntry
young = record {
  coalescer = record { buf = codes "c"; window = 8; size_cap = 1024; first_push = some 4 };
  closed = false;
}

abbrev young_hub : Hub
young_hub = record { panes = (pane, young) ∷ []; window = 8; size_cap = 1024; sent = [] }

flush_due-IsWaiting_example : IsWaiting 6 young
unfolding lookup flush_due Hub.remove_each Hub.flush_loop Hub.is_finished Hub.flushed
    Coalescer.is_flush_due bytes_discrete weftgrid.Base.ℕ_discrete
flush_due-IsWaiting_example = flush_due-IsWaiting young_hub 6 pane young (tt, tt) refl

abbrev small_pool : ReaderPool
small_pool = Reader.new 1

small_pool-IsCapped : IsCapped small_pool
small_pool-IsCapped = record { capped = omega arith; one_each = tt; counted = refl }

run-IsCapped_example :
    IsCapped (Reader.run small_pool (spawns pane ∷ spawns (codes "q") ∷ returns pane ∷ []))
run-IsCapped_example =
    run-IsCapped small_pool (spawns pane ∷ spawns (codes "q") ∷ returns pane ∷ [])
      small_pool-IsCapped
