-- ===== src/Pty/Reader.antt =====
-- src-tauri/src/pty/reader.rs: the capped set of reader threads, and the loop that each runs. The
-- set is a list; what the threads do is a list of steps.
pub mod Loop
use weftgrid.Base.{
  ℕ, ◌+◌, ◌-◌, ◌<◌, ◌≤◌, ◌≡◌, ◌≢◌, refl, sym, ap, Bool, true, false, ◌||◌, Option, none, some, List,
  [], ◌∷◌, ◌++◌, bytes_discrete, arith, ite, if_pos, if_neg, All, length, leb, if◌then◌else◌, Bytes,
  Bool-cases, inl, inr,
}
use weftgrid.Pty.Hub.{PaneId}

pub record ReaderPool : Type 0 where
  pub cap : ℕ
  pub active : List PaneId
  pub count : ℕ

abbrev pub default_pane_cap : ℕ
default_pane_cap = 64

abbrev pub new : ℕ → ReaderPool
new cap = record { cap = cap; active = []; count = 0 }

unfoldable pub contains : PaneId → List PaneId → Bool
contains p [] = false
contains p (q ∷ qs) = ite (bytes_discrete q p) true (contains p qs)

unfoldable pub discard : PaneId → List PaneId → List PaneId
discard p [] = []
discard p (q ∷ qs) = ite (bytes_discrete q p) (discard p qs) (q ∷ discard p qs)

unfoldable pub try_admit : ReaderPool → PaneId → ReaderPool × Bool
try_admit pool pane =
    if leb pool.cap (length pool.active) || contains pane pool.active
    then (pool, false)
    else (record pool { active = pane ∷ pool.active; count = length (pane ∷ pool.active) }, true)

unfoldable pub release : ReaderPool → PaneId → ReaderPool
release pool pane = record pool {
  active = discard pane pool.active;
  count = length (discard pane pool.active);
}

-- What `spawn_reader` returns: an error carries the cap and the live readers.
pub data Spawned : Type 0 where
  started : Spawned
  pool_full : ℕ → ℕ → Spawned

unfoldable pub spawn_reader : ReaderPool → PaneId → ReaderPool × Spawned
unfolding try_admit
spawn_reader pool pane =
    let admitted = try_admit pool pane in
    if admitted.1 then (admitted.0, started) else (pool, pool_full pool.cap pool.count)

-- One round of `read_loop`: the pause flag is set, or `read` returns.
pub data Round : Type 0 where
  paused interrupted failed : Round
  got : Bytes → Round

pub data RawCall : Type 0 where
  on_data : Bytes → RawCall
  on_eof : RawCall

-- The calls of the sink, and whether the loop has returned. `Ok(0)` is `got []`.
unfoldable pub read_loop : List Round → List RawCall × Bool
read_loop [] = ([], false)
read_loop (paused ∷ rs) = read_loop rs
read_loop (interrupted ∷ rs) = read_loop rs
read_loop (failed ∷ rs) = (on_eof ∷ [], true)
read_loop (got [] ∷ rs) = (on_eof ∷ [], true)
read_loop (got (b ∷ bs) ∷ rs) = let rest = read_loop rs in (on_data (b ∷ bs) ∷ rest.0, rest.1)

abbrev pub Lacks : PaneId → List PaneId → Type 0
Lacks p = All (λ q. q ≢ p)

abbrev pub IsDistinct : List PaneId → Type 0
IsDistinct [] = Unit {0}
IsDistinct (p ∷ ps) = Lacks p ps × IsDistinct ps

-- At most `cap` readers, at most one for each pane, and `count` is their number.
pub record IsCapped (pool : ReaderPool) : Type 0 where
  pub capped : length pool.active ≤ pool.cap
  pub one_each : IsDistinct pool.active
  pub counted : pool.count ≡ length pool.active

contains-Lacks : (p : PaneId) (ps : List PaneId) → contains p ps ≡ false → Lacks p ps
unfolding contains
contains-Lacks p [] h = tt
contains-Lacks p (q ∷ qs) h = elim (bytes_discrete q p) [
  | yes e ↦ cc (rw (if_pos _ e) at h)
  | no e ↦ (e, contains-Lacks p qs (rw (if_neg _ e) at h))
]

discard-Lacks : (p q : PaneId) (ps : List PaneId) → Lacks q ps → Lacks q (discard p ps)
unfolding discard
discard-Lacks p q [] h = tt
discard-Lacks p q (r ∷ ps) h = elim (bytes_discrete r p) [
  | yes e ↦ rw (if_pos _ e) (discard-Lacks p q ps h.1)
  | no e ↦ rw (if_neg _ e) (h.0, discard-Lacks p q ps h.1)
]

discard-IsDistinct : (p : PaneId) (ps : List PaneId) → IsDistinct ps → IsDistinct (discard p ps)
unfolding discard
discard-IsDistinct p [] h = tt
discard-IsDistinct p (r ∷ ps) h = elim (bytes_discrete r p) [
  | yes e ↦ rw (if_pos _ e) (discard-IsDistinct p ps h.1)
  | no e ↦ rw (if_neg _ e) (discard-Lacks p r ps h.0, discard-IsDistinct p ps h.1)
]

length-discard-le : (p : PaneId) (ps : List PaneId) → length (discard p ps) ≤ length ps
unfolding discard
length-discard-le p [] = omega arith
length-discard-le p (r ∷ ps) = ground (arith, length-discard-le p ps)

-- A reader is asked for, or a reader's loop returns.
pub data Step : Type 0 where
  spawns returns : PaneId → Step

unfoldable pub step : ReaderPool → Step → ReaderPool
step pool (spawns p) = (spawn_reader pool p).0
step pool (returns p) = release pool p

unfoldable pub run : ReaderPool → List Step → ReaderPool
run pool [] = pool
run pool (s ∷ ss) = run (step pool s) ss

pub step-IsCapped : (pool : ReaderPool) (s : Step) → IsCapped pool → IsCapped (step pool s)
unfolding step spawn_reader try_admit release
step-IsCapped pool (spawns p) v = ground (arith, contains-Lacks p pool.active)
step-IsCapped pool (returns p) v = record {
  capped = omega (arith, length-discard-le p pool.active);
  one_each = discard-IsDistinct p pool.active v.one_each;
  counted = refl;
}

-- From a pool for which this holds: whatever readers are asked for and return, in any order, there
-- are never more than the cap, never two for one pane, and the counter is their number.
pub run-IsCapped : (pool : ReaderPool) (ss : List Step) → IsCapped pool → IsCapped (run pool ss)
unfolding run
run-IsCapped pool [] v = v
run-IsCapped pool (s ∷ ss) v = run-IsCapped (step pool s) ss (step-IsCapped pool s v)
