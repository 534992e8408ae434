-- ===== src/Pty/Manager/Opening.antt =====
-- Which panes the hub has an open entry for, after each of its operations.
use mathlib.Core.Option
use weftgrid.Base.{
  ℕ, ◌≡◌, refl, Bool, true, false, Option, none, some, List, [], ◌∷◌, if◌then◌else◌, Bytes,
  bytes_discrete, arith, ite, if_pos, if_neg,
}
use weftgrid.Base.Maps.{lookup, lookup-insert, lookup-remove, IsMap}
use weftgrid.Pty.Hub.{
  PaneId, PaneEntry, Hub, register, remove_pane, on_data, on_eof, flush_due, flushed,
}
use weftgrid.Pty.Hub.Flush.{left_of, flush_due_at}
use weftgrid.Pty.Hub.Stream.{step-IsMap, step_at, after, registers, removes, reads, ends, flushes}
use weftgrid.Pty.Hub.Stream
use weftgrid.Pty.Reader.{contains, discard}

abbrev pub open_entry : Option PaneEntry → Bool
open_entry none = false
open_entry (some e) = if e.closed then false else true

-- Every entry of the hub that waits for more output.
abbrev pub is_open : PaneId → Hub → Bool
is_open p h = open_entry (lookup bytes_discrete p h.panes)

pub contains-discard :
    (p q : PaneId) (ps : List PaneId)
    → contains p (discard q ps) ≡ ite (bytes_discrete q p) false (contains p ps)
unfolding contains discard
contains-discard p q [] = ground arith
contains-discard p q (r ∷ ps) = ground (arith, contains-discard p q ps)

open_entry-ite :
    {P : Type 0} (d : Dec P) (a b : Option PaneEntry)
    → open_entry (ite d a b) ≡ ite d (open_entry a) (open_entry b)
open_entry-ite (yes e) a b = refl
open_entry-ite (no e) a b = refl

pub is_open-register :
    (h : Hub) (q p : PaneId)
    → is_open p (register h q) ≡ ite (bytes_discrete q p) true (is_open p h)
unfolding register
is_open-register h q p = rw lookup-insert (open_entry-ite (bytes_discrete q p) _ _)

pub is_open-remove_pane :
    (h : Hub) (q p : PaneId)
    → is_open p (remove_pane h q) ≡ ite (bytes_discrete q p) false (is_open p h)
unfolding remove_pane
is_open-remove_pane h q p = rw lookup-remove (open_entry-ite (bytes_discrete q p) _ _)

open_entry-left_of :
    (now : ℕ) (o : Option PaneEntry) → open_entry (left_of now o) ≡ true → open_entry o ≡ true
unfolding flushed
open_entry-left_of now none h = h
open_entry-left_of now (some e) h = ground arith

open_entry-reading :
    (now : ℕ) (d : Bytes) (o : Option PaneEntry)
    → open_entry (Option.map (Stream.reading now d) o) ≡ open_entry o
open_entry-reading now d none = refl
open_entry-reading now d (some e) = refl

open_entry-ending : (o : Option PaneEntry) → open_entry (Option.map Stream.ending o) ≡ false
open_entry-ending none = refl
open_entry-ending (some e) = refl

pub is_open-on_eof :
    (h : Hub) (q p : PaneId)
    → IsMap h.panes
    → is_open p (on_eof h q) ≡ ite (bytes_discrete q p) false (is_open p h)
unfolding Stream.step
is_open-on_eof h q p u =
    rw ((step_at h p (ends q) u tt).0) (rw (open_entry-ite, open_entry-ending) refl)

pub is_open-on_data :
    (h : Hub) (now : ℕ) (q p : PaneId) (d : Bytes)
    → IsMap h.panes
    → is_open p (on_data h now q d) ≡ is_open p h
unfolding Stream.step
is_open-on_data h now q p d u = elim (bytes_discrete q p) [
  | yes e ↦ rw ((step_at h p (reads now q d) u tt).0) (
      rw (if_pos (bytes_discrete q p) e)
        (open_entry-reading now d (lookup bytes_discrete p h.panes)))
  | no e ↦ rw ((step_at h p (reads now q d) u tt).0) (rw (if_neg (bytes_discrete q p) e) refl)
]

pub is_open-flush_due :
    (h : Hub) (now : ℕ) (p : PaneId)
    → IsMap h.panes
    → is_open p (flush_due h now).0 ≡ true
    → is_open p h ≡ true
is_open-flush_due h now p u e =
    open_entry-left_of now (lookup bytes_discrete p h.panes) (rw (flush_due_at h now p u).1 at e)
