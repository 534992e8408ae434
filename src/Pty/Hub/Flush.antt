-- ===== src/Pty/Hub/Flush.antt =====
-- One flush, seen at one pane: it acts on each pane by itself.
use mathlib.Core.Option
use weftgrid.Base.{
  ℕ, ◌≡◌, ◌≢◌, refl, sym, Bool, true, false, Option, none, some, List, [], ◌∷◌, ◌++◌, if◌then◌else◌,
  bytes_discrete, arith, ite, if_pos, if_neg, append-nil, subst,
}
use weftgrid.Base.Maps.{lookup, remove, lookup-remove, IsMap, Absent}
use weftgrid.Pty.Hub.{
  PaneId, SinkCall, PaneEntry, Hub, flushed, is_finished, told, addressed, flush_loop, remove_each,
  flush_due,
}

-- The calls that went to one pane.
unfoldable pub for_pane : PaneId → List (PaneId × SinkCall) → List SinkCall
for_pane p [] = []
for_pane p ((q, c) ∷ cs) = ite (bytes_discrete q p) (c ∷ for_pane p cs) (for_pane p cs)

pub for_pane-append :
    (p : PaneId) (a b : List (PaneId × SinkCall))
    → for_pane p (a ++ b) ≡ for_pane p a ++ for_pane p b
unfolding for_pane
for_pane-append p [] b = refl
for_pane-append p ((q, c) ∷ a) b = ground (arith, for_pane-append p a b)

for_pane-addressed_self : (p : PaneId) (cs : List SinkCall) → for_pane p (addressed p cs) ≡ cs
unfolding for_pane
for_pane-addressed_self p [] = refl
for_pane-addressed_self p (c ∷ cs) = ground (arith, for_pane-addressed_self p cs)

for_pane-addressed_ne :
    (p q : PaneId) (cs : List SinkCall) → q ≢ p → for_pane p (addressed q cs) ≡ []
unfolding for_pane
for_pane-addressed_ne p q [] h = refl
for_pane-addressed_ne p q (c ∷ cs) h = ground (arith, for_pane-addressed_ne p q cs h)

abbrev is_member : PaneId → List PaneId → Bool
is_member p [] = false
is_member p (q ∷ qs) = ite (bytes_discrete q p) true (is_member p qs)

lookup-remove_each :
    (p : PaneId) (ids : List PaneId) (m : List (PaneId × PaneEntry))
    → lookup bytes_discrete p (remove_each ids m)
      ≡ (if is_member p ids then none else lookup bytes_discrete p m)
unfolding remove_each
lookup-remove_each p [] m = refl
lookup-remove_each p (q ∷ ids) m = ground (
  arith,
  lookup-remove_each p ids (remove bytes_discrete q m),
  lookup-remove bytes_discrete q p m,
)

lookup-flush_loop :
    (p : PaneId) (now : ℕ) (m : List (PaneId × PaneEntry))
    → lookup bytes_discrete p (flush_loop now m).panes
      ≡ Option.map (flushed now) (lookup bytes_discrete p m)
unfolding flush_loop lookup
lookup-flush_loop p now [] = refl
lookup-flush_loop p now ((q, e) ∷ m) = ground (arith, lookup-flush_loop p now m)

-- The turn of an entry that may not be there.
abbrev pub told_of : ℕ → Option PaneEntry → List SinkCall
told_of now none = []
told_of now (some e) = told now e

abbrev pub left_of : ℕ → Option PaneEntry → Option PaneEntry
left_of now none = none
left_of now (some e) = if is_finished (flushed now e) then none else some (flushed now e)

abbrev finished_of : ℕ → Option PaneEntry → Bool
finished_of now none = false
finished_of now (some e) = is_finished (flushed now e)

flush_loop-Absent :
    (p : PaneId) (now : ℕ) (m : List (PaneId × PaneEntry))
    → Absent p m
    → (for_pane p (flush_loop now m).calls ≡ []) × (is_member p (flush_loop now m).finished ≡ false)
unfolding flush_loop for_pane
flush_loop-Absent p now [] a = (refl, refl)
flush_loop-Absent p now ((q, e) ∷ m) a =
    let ih = flush_loop-Absent p now m a.1 in
    (
      rw
          (
            for_pane-append p (addressed q (told now e)) (flush_loop now m).calls,
            for_pane-addressed_ne p q (told now e) a.0,
          )
          ih.0,
      ground (arith, ih.1),
    )

flush_loop_at :
    (p : PaneId) (now : ℕ) (m : List (PaneId × PaneEntry))
    → IsMap m
    → (for_pane p (flush_loop now m).calls ≡ told_of now (lookup bytes_discrete p m))
      × (is_member p (flush_loop now m).finished ≡ finished_of now (lookup bytes_discrete p m))
unfolding flush_loop lookup for_pane
flush_loop_at p now [] u = (refl, refl)
flush_loop_at p now ((q, e) ∷ m) u = elim (bytes_discrete q p) [
  | yes h ↦
      let gone = flush_loop-Absent p now m (subst (λ x. Absent x m) h u.0) in
      (
        rw (for_pane-append, if_pos _ h, gone.0, append-nil)
            (subst (λ x. for_pane p (addressed x (told now e)) ≡ told now e) (sym h)
              (for_pane-addressed_self p (told now e))),
        ground (arith, gone.1),
      )
  | no h ↦
      let ih = flush_loop_at p now m u.1 in
      (
        rw (for_pane-append, if_neg _ h, for_pane-addressed_ne p q (told now e) h) ih.0,
        ground (arith, ih.1),
      )
]

-- A flush tells each pane's sink what its entry calls for, whatever other panes there are, and
-- leaves of the pane what its entry leaves.
pub flush_due_at :
    (h : Hub) (now : ℕ) (p : PaneId)
    → IsMap h.panes
    → (for_pane p (flush_due h now).0.sent
        ≡ for_pane p h.sent ++ told_of now (lookup bytes_discrete p h.panes))
      × (lookup bytes_discrete p (flush_due h now).0.panes
          ≡ left_of now (lookup bytes_discrete p h.panes))
unfolding flush_due
flush_due_at h now p u =
    let at_pane = flush_loop_at p now h.panes u in
    (
      rw (for_pane-append, at_pane.0),
      rw (lookup-remove_each, at_pane.1, lookup-flush_loop)
          (left (lookup bytes_discrete p h.panes)),
    )
  where
    left :
        (o : Option PaneEntry)
        → (if finished_of now o then none else Option.map (flushed now) o) ≡ left_of now o
    left none = refl
    left (some e) = refl
