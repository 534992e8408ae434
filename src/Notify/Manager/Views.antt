-- ===== src/Notify/Manager/Views.antt =====
-- What the UI reads of the store.
use mathlib.Core.List.{Perm}
use weftgrid.Base.{
  ◌≡◌, ◌≢◌, refl, sym, Bool, [], ◌∷◌, arith, bytes_discrete, count_if, if◌then◌else◌, suc,
}
use weftgrid.Base.Maps.{lookup, IsMap, Absent, values, keys}
use weftgrid.Base.Sort.{IsSorted, sort_by-IsSorted, sort_by-perm}
use weftgrid.Notify.Manager.{
  PaneKey, Notification, Manager, is_unread, unread_or_false, has_ring, unread_count, snapshot,
  newer_first,
}
use weftgrid.Notify.Manager.Invariant.{Entries, IsWellFormed}

-- The panel lists every stored notification, newest first.
pub snapshot-IsSorted :
    (m : Manager) → IsSorted newer_first (snapshot m) × Perm (snapshot m) (values m.latest)
unfolding snapshot
snapshot-IsSorted m = (
  sort_by-IsSorted newer_first (λ a b h. ground arith) (λ a b c h k. ground arith)
      (values m.latest),
  sort_by-perm newer_first (values m.latest),
)

ringing : Entries → PaneKey → Bool
ringing m pane = unread_or_false (lookup bytes_discrete pane m)

ringing-cons :
    (j k : PaneKey) (n : Notification) (m : Entries) → j ≢ k → ringing ((j, n) ∷ m) k ≡ ringing m k
unfolding ringing lookup
ringing-cons j k n m h = ground arith

count_ringing_cons :
    (j : PaneKey) (n : Notification) (m rest : Entries)
    → Absent j rest
    → count_if (ringing ((j, n) ∷ m)) (keys rest) ≡ count_if (ringing m) (keys rest)
count_ringing_cons j n m [] a = refl
count_ringing_cons j n m ((k, w) ∷ rest) a =
    rw (ringing-cons j k n m (λ e. a.0 (sym e)), count_ringing_cons j n m rest a.1)

count_ringing :
    (m : Entries) → IsMap m → count_if (ringing m) (keys m) ≡ count_if is_unread (values m)
count_ringing [] h = refl
count_ringing ((j, n) ∷ m) h = rw (count_ringing_cons j n m m h.0, count_ringing m h.1) (first n)
  where
    first :
        (n : Notification)
        → (if ringing ((j, n) ∷ m) j
            then suc (count_if is_unread (values m))
            else count_if is_unread (values m))
          ≡ (if is_unread n
              then suc (count_if is_unread (values m))
              else count_if is_unread (values m))
    first n = unfold ringing lookup in ground arith

-- For a well-formed store, the badge shows how many panes have a ring.
pub unread_count-has_ring :
    (m : Manager) → IsWellFormed m → unread_count m ≡ count_if (has_ring m) (keys m.latest)
unfolding unread_count has_ring ringing
unread_count-has_ring m v = sym (count_ringing m.latest v.one_each)
