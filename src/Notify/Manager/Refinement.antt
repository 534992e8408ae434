-- ===== src/Notify/Manager/Refinement.antt =====
-- The store as a function from panes to notifications.
use mathlib.Core.Option
use weftgrid.Base.{
  ℕ, ◌≡◌, refl, true, Option, none, some, ite, if_pos, if_neg, arith, bytes_discrete,
}
use weftgrid.Base.Maps.{lookup, lookup-insert, lookup-remove}
use weftgrid.Notify.Manager.{
  PaneKey, Notification, Manager, stamp, record_parsed, latest, mark_found, mark_read, clear,
  clear_all,
}
use weftgrid.Notify.Manager.Invariant.{Call, records, marks_read, clears, clears_all, call}

-- What each pane holds.
abbrev pub View : Type 0
View = PaneKey → Option Notification

abbrev pub as_read : Notification → Notification
as_read n = record n { is_read = true }

-- A call touches one pane, or all of them.
abbrev pub spec : View → ℕ → Call → View
spec f seq (records pane id parsed) q =
    ite (bytes_discrete pane q) (some (stamp pane id seq parsed)) (f q)
spec f seq (marks_read pane) q = ite (bytes_discrete pane q) (Option.map as_read (f q)) (f q)
spec f seq (clears pane) q = ite (bytes_discrete pane q) none (f q)
spec f seq clears_all q = none

mark_found_lem :
    (m : Manager) (pane q : PaneKey) (found : Option Notification)
    → lookup bytes_discrete pane m.latest ≡ found
    → lookup bytes_discrete q (mark_found m pane found).0.latest
      ≡ ite
          (bytes_discrete pane q)
          (Option.map as_read (lookup bytes_discrete q m.latest))
          (lookup bytes_discrete q m.latest)
unfolding mark_found
mark_found_lem m pane q none e = elim (bytes_discrete pane q) [
  | yes p ↦ rw (if_pos _ p) (rw (← p) (rw e))
  | no p ↦ rw (if_neg _ p)
]
mark_found_lem m pane q (some n) e = elim (bytes_discrete pane q) [
  | yes p ↦ rw (← p) (ground (arith, lookup-insert bytes_discrete pane pane (as_read n) m.latest))
  | no p ↦ ground (arith, lookup-insert bytes_discrete pane q (as_read n) m.latest)
]

-- Seen as the latest notification of each pane, the store does what is meant: recording replaces
-- that of its pane by the new one, marking as read sets the flag of its pane's, clearing removes
-- that of its pane or all of them, and no call on one pane changes what another has.
pub latest-call :
    (m : Manager) (c : Call) (q : PaneKey) → latest (call m c) q ≡ spec (latest m) m.next_seq c q
unfolding latest call record_parsed mark_read clear clear_all
latest-call m (records pane id parsed) q = lookup-insert bytes_discrete pane q _ m.latest
latest-call m (marks_read pane) q = mark_found_lem m pane q _ refl
latest-call m (clears pane) q = lookup-remove bytes_discrete pane q m.latest
latest-call m clears_all q = unfold lookup in refl
