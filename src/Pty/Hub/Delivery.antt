-- ===== src/Pty/Hub/Delivery.antt =====
-- From registration to EOF: each pane's sink is given the pane's bytes, whole and in order, and is
-- told once, at the end, that the pane closed.
use weftgrid.Base.{
  ℕ, ◌≡◌, refl, sym, ◌∙◌, ap, true, Option, none, some, List, [], ◌∷◌, ◌++◌, if◌then◌else◌, Bytes,
  bytes_discrete, arith, ite, if_pos, if_neg, All, All-append, append_assoc, append-nil, Bool-cases,
  inl, inr,
}
use weftgrid.Base.Maps.{lookup, IsMap}
use weftgrid.Pty.Coalescer.{Coalescer, is_empty, is_flush_due}
use weftgrid.Pty.Coalescer
use weftgrid.Pty.Hub.{
  PaneId, SinkCall, PaneEntry, Hub, flushed, is_finished, told, send_batch, on_closed,
}
use weftgrid.Pty.Hub.Flush.{for_pane}
use weftgrid.Pty.Hub.Stream.{
  Event, registers, removes, reads, ends, flushes, step, run, step-IsMap, step_at, after, calls_in,
  Spares, reading, ending,
}

-- A list of events, at one pane.
unfoldable pub run_at : PaneId → List Event → Option PaneEntry → Option PaneEntry
run_at p [] o = o
run_at p (e ∷ es) o = run_at p es (after p e o)

unfoldable pub calls_during : PaneId → List Event → Option PaneEntry → List SinkCall
calls_during p [] o = []
calls_during p (e ∷ es) o = calls_in p e o ++ calls_during p es (after p e o)

-- The reads that reach the pane while it is registered.
abbrev pub accepted_in : PaneId → Event → Option PaneEntry → Bytes
accepted_in p (reads now q d) (some e) = ite (bytes_discrete q p) d []
accepted_in p (reads now q d) none = []
accepted_in p (registers q) o = []
accepted_in p (removes q) o = []
accepted_in p (ends q) o = []
accepted_in p (flushes now) o = []

unfoldable pub accepted : PaneId → List Event → Option PaneEntry → Bytes
accepted p [] o = []
accepted p (e ∷ es) o = accepted_in p e o ++ accepted p es (after p e o)

-- What `send_batch` was given, put together.
abbrev pub bytes_of : List SinkCall → Bytes
bytes_of [] = []
bytes_of (send_batch d ∷ cs) = d ++ bytes_of cs
bytes_of (on_closed ∷ cs) = bytes_of cs

bytes_of-append : (a b : List SinkCall) → bytes_of (a ++ b) ≡ bytes_of a ++ bytes_of b
bytes_of-append [] b = refl
bytes_of-append (send_batch d ∷ a) b = rw (bytes_of-append a b, append_assoc)
bytes_of-append (on_closed ∷ a) b = bytes_of-append a b

abbrev pub pending : Option PaneEntry → Bytes
pending none = []
pending (some e) = e.coalescer.buf

abbrev pub IsBatch : SinkCall → Type 0
IsBatch (send_batch d) = Unit {0}
IsBatch on_closed = ⊥

-- Batches only while the pane is there; batches and then one `on_closed` once it is gone.
abbrev pub Ends : Option PaneEntry → List SinkCall → Type 0
Ends (some e) cs = All IsBatch cs
Ends none cs = (bs : List SinkCall) × All IsBatch bs × (cs ≡ bs ++ on_closed ∷ [])

after-none : (p : PaneId) (e : Event) → (after p e none ≡ none) × (calls_in p e none ≡ [])
after-none p (registers q) = (refl, refl)
after-none p (removes q) = (refl, refl)
after-none p (reads now q d) = (ground arith, refl)
after-none p (ends q) = (ground arith, refl)
after-none p (flushes now) = (refl, refl)

accepted_in-none : (p : PaneId) (e : Event) → accepted_in p e none ≡ []
accepted_in-none p (registers q) = refl
accepted_in-none p _ = refl

-- Nothing reaches a pane that is gone.
gone :
    (p : PaneId) (es : List Event)
    → (run_at p es none ≡ none) × (calls_during p es none ≡ []) × (accepted p es none ≡ [])
unfolding run_at calls_during accepted
gone p [] = (refl, refl, refl)
gone p (e ∷ es) =
    let (a, c) = after-none p e in
    let ih = gone p es in
    (rw a ih.0, rw (a, c) ih.1, rw a (ground (arith, ih.2, accepted_in-none p e)))

told_batches : ℕ → PaneEntry → List SinkCall
told_batches now e = if is_flush_due e.coalescer now then send_batch e.coalescer.buf ∷ [] else []

told_batches-All : (now : ℕ) (e : PaneEntry) → All IsBatch (told_batches now e)
unfolding told_batches
told_batches-All now e = ground arith

told_parts :
    (now : ℕ) (e : PaneEntry)
    → told now e
      ≡ told_batches now e ++ (if is_finished (flushed now e) then on_closed ∷ [] else [])
unfolding told told_batches Coalescer.take
told_parts now e = refl

-- A flush moves what it takes from the buffer to the sink.
bytes_of-told_batches :
    (now : ℕ) (e : PaneEntry)
    → bytes_of (told_batches now e) ++ (flushed now e).coalescer.buf ≡ e.coalescer.buf
unfolding told_batches flushed Coalescer.take
bytes_of-told_batches now e = ground (arith, append-nil e.coalescer.buf)

finished_empty : (e : PaneEntry) → is_finished e ≡ true → e.coalescer.buf ≡ []
unfolding is_finished
finished_empty e h = ground arith

-- What the last flush sends is all that was buffered.
last_bytes :
    (now : ℕ) (e : PaneEntry)
    → is_finished (flushed now e) ≡ true
    → bytes_of (told_batches now e ++ on_closed ∷ []) ≡ e.coalescer.buf ++ []
last_bytes now e f =
    bytes_of-append (told_batches now e) (on_closed ∷ [])
    ∙ ap (◌++◌ (bytes_of (told_batches now e))) (sym (finished_empty (flushed now e) f))
    ∙ bytes_of-told_batches now e
    ∙ sym (append-nil e.coalescer.buf)

-- The pane's sink from its entry `e` on, through any events.
abbrev Served : PaneId → List Event → PaneEntry → Type 0
Served p es e =
    Ends (run_at p es (some e)) (calls_during p es (some e))
    × (bytes_of (calls_during p es (some e)) ++ pending (run_at p es (some e))
        ≡ e.coalescer.buf ++ accepted p es (some e))

Ends-append :
    (o : Option PaneEntry) (bs cs : List SinkCall) → All IsBatch bs → Ends o cs → Ends o (bs ++ cs)
Ends-append none bs cs a (ds, b, e) =
    (bs ++ ds, All-append IsBatch bs ds a b, rw e (sym (append_assoc bs ds (on_closed ∷ []))))
Ends-append (some e) bs cs a b = All-append IsBatch bs cs a b

served_read :
    (p q : PaneId) (now : ℕ) (d : Bytes) (es : List Event) (e : PaneEntry)
    → Served p es (reading now d e)
    → Served p es e
    → Served p (reads now q d ∷ es) e
unfolding run_at calls_during accepted Coalescer.push
served_read p q now d es e hit miss = elim (bytes_discrete q p) [
  | yes h ↦ rw (if_pos _ h, if_pos _ h) (hit.0, hit.1 ∙ append_assoc e.coalescer.buf d _)
  | no h ↦ rw (if_neg _ h, if_neg _ h) miss
]

served_flush :
    (p : PaneId) (now : ℕ) (es : List Event) (e : PaneEntry)
    → Served p es (flushed now e)
    → Served p (flushes now ∷ es) e
unfolding run_at calls_during accepted
served_flush p now es e later = elim (Bool-cases (is_finished (flushed now e))) [
  | inl f ↦
      let nothing = gone p es in
      rw (told_parts, f, nothing.0, nothing.1, nothing.2, append-nil, append-nil)
        ((told_batches now e, told_batches-All now e, refl), last_bytes now e f)
  | inr f ↦
      let batches = told_batches now e in
      rw (told_parts, f, append-nil)
        (
          Ends-append (run_at p es (some (flushed now e))) batches
              (calls_during p es (some (flushed now e))) (told_batches-All now e) later.0,
          rw (bytes_of-append, append_assoc)
              (ap (◌++◌ (bytes_of batches)) later.1
                ∙ sym (append_assoc (bytes_of batches) (flushed now e).coalescer.buf _)
                ∙ rw bytes_of-told_batches),
        )
]

served : (p : PaneId) (es : List Event) (e : PaneEntry) → Served p es e
unfolding run_at calls_during accepted
served p [] e = (tt, sym (append-nil e.coalescer.buf))
served p (registers q ∷ es) e = served p es e
served p (removes q ∷ es) e = served p es e
served p (reads now q d ∷ es) e =
    served_read p q now d es e (served p es (reading now d e)) (served p es e)
served p (ends q ∷ es) e = elim (bytes_discrete q p) [
  | yes h ↦ rw (if_pos _ h) (served p es (ending e))
  | no h ↦ rw (if_neg _ h) (served p es e)
]
served p (flushes now ∷ es) e = served_flush p now es e (served p es (flushed now e))

run_at_hub :
    (h : Hub) (p : PaneId) (es : List Event)
    → IsMap h.panes
    → All (Spares p) es
    → (lookup bytes_discrete p (run h es).panes ≡ run_at p es (lookup bytes_discrete p h.panes))
      × (for_pane p (run h es).sent
          ≡ for_pane p h.sent ++ calls_during p es (lookup bytes_discrete p h.panes))
unfolding run run_at calls_during
run_at_hub h p [] u s = (refl, sym (append-nil (for_pane p h.sent)))
run_at_hub h p (e ∷ es) u s =
    let now = step_at h p e u s.0 in
    let later = run_at_hub (step h e) p es (step-IsMap h e u) s.1 in
    (rw (← now.0) later.0, later.1 ∙ rw (now.1, now.0, append_assoc))

-- Take any hub with one entry for each pane, a pane registered there, and any events that neither
-- register nor remove the pane. The calls that its sink gets during them are `cs`: batches while
-- the pane stays registered, and batches and then one `on_closed` once it is gone. The bytes of
-- the batches, with what is still buffered, are the bytes that were buffered and then the reads
-- accepted meanwhile, in order.
pub run_delivers :
    (h : Hub) (p : PaneId) (e : PaneEntry) (es : List Event)
    → IsMap h.panes
    → lookup bytes_discrete p h.panes ≡ some e
    → All (Spares p) es
    → (cs : List SinkCall) × (for_pane p (run h es).sent ≡ for_pane p h.sent ++ cs)
      × Ends (lookup bytes_discrete p (run h es).panes) cs
      × (bytes_of cs ++ pending (lookup bytes_discrete p (run h es).panes)
          ≡ e.coalescer.buf ++ accepted p es (some e))
run_delivers h p e es u found s =
    let whole = run_at_hub h p es u s in
    let part = served p es e in
    (
      calls_during p es (some e),
      whole.1 ∙ rw found,
      rw (whole.0, found) part.0,
      rw (whole.0, found) part.1,
    )
