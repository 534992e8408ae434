-- ===== src/Pty/Hub/Stream.antt =====
-- The hub's events, and what each of them does to one pane.
use mathlib.Core.Option
use weftgrid.Base.{
  ℕ, ◌≡◌, ◌≢◌, refl, sym, true, Option, none, some, List, [], ◌∷◌, ◌++◌, Bytes, bytes_discrete,
  arith, ite, if_pos, if_neg, append-nil,
}
use weftgrid.Base.Maps.{
  lookup, remove, lookup-insert, lookup-remove, IsMap, insert-IsMap, remove-IsMap, Absent,
}
use weftgrid.Pty.Coalescer.{Coalescer, is_empty, is_flush_due}
use weftgrid.Pty.Coalescer
use weftgrid.Pty.Hub.{
  PaneId, SinkCall, PaneEntry, Hub, flush_loop, remove_each, flush_due, register, remove_pane,
  update_found, on_data, on_eof,
}
use weftgrid.Pty.Hub.Flush.{for_pane, told_of, left_of, flush_due_at}

-- What the hub is asked to do, in the order of its lock.
pub data Event : Type 0 where
  registers removes : PaneId → Event
  reads : ℕ → PaneId → Bytes → Event
  ends : PaneId → Event
  flushes : ℕ → Event

unfoldable pub step : Hub → Event → Hub
step h (registers p) = register h p
step h (removes p) = remove_pane h p
step h (reads now p d) = on_data h now p d
step h (ends p) = on_eof h p
step h (flushes now) = (flush_due h now).0

unfoldable pub run : Hub → List Event → Hub
run h [] = h
run h (e ∷ es) = run (step h e) es

abbrev pub reading : ℕ → Bytes → PaneEntry → PaneEntry
reading now d e = record e { coalescer = Coalescer.push e.coalescer now d }

abbrev pub ending : PaneEntry → PaneEntry
ending e = record e { closed = true }

-- One pane's share of an event that neither registers nor removes it.
abbrev pub after : PaneId → Event → Option PaneEntry → Option PaneEntry
after p (registers q) o = o
after p (removes q) o = o
after p (reads now q d) o = ite (bytes_discrete q p) (Option.map (reading now d) o) o
after p (ends q) o = ite (bytes_discrete q p) (Option.map ending o) o
after p (flushes now) o = left_of now o

abbrev pub calls_in : PaneId → Event → Option PaneEntry → List SinkCall
calls_in p (flushes now) o = told_of now o
calls_in p (registers q) o = []
calls_in p (removes q) o = []
calls_in p (reads now q d) o = []
calls_in p (ends q) o = []

-- The event neither registers nor removes the pane.
abbrev pub Spares : PaneId → Event → Type 0
Spares p (registers q) = q ≢ p
Spares p (removes q) = q ≢ p
Spares p (reads now q d) = Unit {0}
Spares p (ends q) = Unit {0}
Spares p (flushes now) = Unit {0}

update_found_at :
    (h : Hub) (q p : PaneId) (f : PaneEntry → PaneEntry) (o : Option PaneEntry)
    → lookup bytes_discrete q h.panes ≡ o
    → lookup bytes_discrete p (update_found h q f o).panes
      ≡ ite
          (bytes_discrete q p)
          (Option.map f (lookup bytes_discrete p h.panes))
          (lookup bytes_discrete p h.panes)
unfolding update_found
update_found_at h q p f none e = elim (bytes_discrete q p) [
  | yes i ↦ rw (if_pos _ i) (rw (← i) (rw e))
  | no i ↦ rw (if_neg _ i)
]
update_found_at h q p f (some x) e = elim (bytes_discrete q p) [
  | yes i ↦ rw (← i) (ground (arith, lookup-insert bytes_discrete q q (f x) h.panes))
  | no i ↦ ground (arith, lookup-insert bytes_discrete q p (f x) h.panes)
]

update_found_sent :
    (h : Hub) (q : PaneId) (f : PaneEntry → PaneEntry) (o : Option PaneEntry)
    → (update_found h q f o).sent ≡ h.sent
unfolding update_found
update_found_sent h q f none = refl
update_found_sent h q f (some e) = refl

update_found-IsMap :
    (h : Hub) (q : PaneId) (f : PaneEntry → PaneEntry) (o : Option PaneEntry)
    → IsMap h.panes
    → IsMap (update_found h q f o).panes
unfolding update_found
update_found-IsMap h q f none u = u
update_found-IsMap h q f (some e) u = insert-IsMap bytes_discrete q (f e) h.panes u

flush_loop-Absent :
    (p : PaneId) (now : ℕ) (m : List (PaneId × PaneEntry))
    → Absent p m
    → Absent p (flush_loop now m).panes
unfolding flush_loop
flush_loop-Absent p now [] a = tt
flush_loop-Absent p now ((q, e) ∷ m) a = (a.0, flush_loop-Absent p now m a.1)

flush_loop-IsMap :
    (now : ℕ) (m : List (PaneId × PaneEntry)) → IsMap m → IsMap (flush_loop now m).panes
unfolding flush_loop
flush_loop-IsMap now [] u = tt
flush_loop-IsMap now ((q, e) ∷ m) u = (flush_loop-Absent q now m u.0, flush_loop-IsMap now m u.1)

remove_each-IsMap :
    (ids : List PaneId) (m : List (PaneId × PaneEntry)) → IsMap m → IsMap (remove_each ids m)
unfolding remove_each
remove_each-IsMap [] m u = u
remove_each-IsMap (q ∷ ids) m u =
    remove_each-IsMap ids (remove bytes_discrete q m) (remove-IsMap bytes_discrete q m u)

pub step-IsMap : (h : Hub) (e : Event) → IsMap h.panes → IsMap (step h e).panes
unfolding step register remove_pane on_data on_eof flush_due
step-IsMap h (registers p) u = insert-IsMap bytes_discrete p _ h.panes u
step-IsMap h (removes p) u = remove-IsMap bytes_discrete p h.panes u
step-IsMap h (reads now p d) u = update_found-IsMap h p _ _ u
step-IsMap h (ends p) u = update_found-IsMap h p _ _ u
step-IsMap h (flushes now) u =
    remove_each-IsMap (flush_loop now h.panes).finished (flush_loop now h.panes).panes
      (flush_loop-IsMap now h.panes u)

-- The hub does to one pane what `after` and `calls_in` say of that pane alone.
pub step_at :
    (h : Hub) (p : PaneId) (e : Event)
    → IsMap h.panes
    → Spares p e
    → (lookup bytes_discrete p (step h e).panes ≡ after p e (lookup bytes_discrete p h.panes))
      × (for_pane p (step h e).sent
          ≡ for_pane p h.sent ++ calls_in p e (lookup bytes_discrete p h.panes))
unfolding step register remove_pane on_data on_eof
step_at h p (registers q) u s =
    (rw (lookup-insert, if_neg (bytes_discrete q p) s), sym (append-nil (for_pane p h.sent)))
step_at h p (removes q) u s =
    (rw (lookup-remove, if_neg (bytes_discrete q p) s), sym (append-nil (for_pane p h.sent)))
step_at h p (reads now q d) u s =
    (update_found_at h q p (reading now d) _ refl, rw (update_found_sent, append-nil))
step_at h p (ends q) u s = (update_found_at h q p ending _ refl, rw (update_found_sent, append-nil))
step_at h p (flushes now) u s = let f = flush_due_at h now p u in (f.1, f.0)
