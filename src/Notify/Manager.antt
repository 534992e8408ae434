-- ===== src/Notify/Manager.antt =====
-- src-tauri/src/notify/manager.rs: the latest notification of each pane. The map is an
-- association list; `Uuid::new_v4` is the argument `id`.
pub mod Invariant
pub mod Views
pub mod Refinement
use mathlib.Core.Option
use weftgrid.Base.{
  ℕ, ◌+◌, ◌%◌, ◌^◌, Bool, true, false, not, Option, none, some, List, [], ◌∷◌, map, Bytes, leb,
  count_if, bytes_discrete,
}
use weftgrid.Base.Maps.{lookup, insert, remove, values}
use weftgrid.Base.Sort.{sort_by}
use weftgrid.Notify.Osc.{ParsedNotification}

-- a pane's id is a text
abbrev pub PaneKey : Type 0
PaneKey = Bytes

pub record Notification : Type 0 where
  pub id : ℕ
  pub pane_id : PaneKey
  pub title : Bytes
  pub subtitle : Bytes
  pub body : Bytes
  pub seq : ℕ
  pub is_read : Bool

pub record PaneRingState : Type 0 where
  pub pane_id : PaneKey
  pub has_ring : Bool
  pub latest : Option Notification

-- `Inner`
pub record Manager : Type 0 where
  pub latest : List (PaneKey × Notification)
  pub next_seq : ℕ

abbrev pub new : Manager
new = record { latest = []; next_seq = 0 }

abbrev pub stamp : PaneKey → ℕ → ℕ → ParsedNotification → Notification
stamp pane id seq parsed = record {
  id = id;
  pane_id = pane;
  title = parsed.title;
  subtitle = parsed.subtitle;
  body = parsed.body;
  seq = seq;
  is_read = false;
}

-- `record`
unfoldable pub record_parsed : Manager → PaneKey → ℕ → ParsedNotification → Manager × Notification
record_parsed m pane id parsed =
    let notification = stamp pane id m.next_seq parsed in
    (
      record m {
        latest = insert bytes_discrete pane notification m.latest;
        next_seq = (m.next_seq + 1) % 2 ^ 64;
      },
      notification,
    )

unfoldable pub latest : Manager → PaneKey → Option Notification
latest m pane = lookup bytes_discrete pane m.latest

abbrev pub is_unread : Notification → Bool
is_unread n = not n.is_read

unfoldable pub unread_count : Manager → ℕ
unread_count m = count_if is_unread (values m.latest)

abbrev pub unread_or_false : Option Notification → Bool
unread_or_false none = false
unread_or_false (some n) = is_unread n

unfoldable pub has_ring : Manager → PaneKey → Bool
has_ring m pane = unread_or_false (lookup bytes_discrete pane m.latest)

-- `Some(n) if !n.is_read`; the other arm is `_`
unfoldable pub mark_found : Manager → PaneKey → Option Notification → Manager × Bool
mark_found m pane none = (m, false)
mark_found m pane (some n) = elim (is_unread n) [
  | true ↦ (
    record m { latest = insert bytes_discrete pane (record n { is_read = true }) m.latest },
    true,
  )
  | false ↦ (m, false)
]

unfoldable pub mark_read : Manager → PaneKey → Manager × Bool
unfolding mark_found
mark_read m pane = mark_found m pane (lookup bytes_discrete pane m.latest)

abbrev pub is_some {ℓ} : {A : Type ℓ} → Option A → Bool
is_some none = false
is_some (some _) = true

unfoldable pub clear : Manager → PaneKey → Manager × Bool
clear m pane = (
  record m { latest = remove bytes_discrete pane m.latest },
  is_some (lookup bytes_discrete pane m.latest),
)

unfoldable pub clear_all : Manager → Manager
clear_all m = record m { latest = [] }

unfoldable pub ring_state : Manager → PaneKey → PaneRingState
ring_state m pane = record {
  pane_id = pane;
  has_ring = unread_or_false (lookup bytes_discrete pane m.latest);
  latest = lookup bytes_discrete pane m.latest;
}

-- `sort_by_key(|n| Reverse(n.seq))`
abbrev pub newer_first : Notification → Notification → Bool
newer_first a b = leb b.seq a.seq

unfoldable pub snapshot : Manager → List Notification
snapshot m = sort_by newer_first (values m.latest)
