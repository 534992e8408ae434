-- ===== src/Pty/Manager/Interleaving/Feeding.antt =====
-- Whom an open entry of the hub waits for, under interleaved locks.
use weftgrid.Base.{
  ℕ, ◌≡◌, ◌≢◌, refl, Bool, true, false, not, List, [], ◌∷◌, bytes_discrete, ite, arith, Bool-cases,
  inl, inr, ◌&&◌, ◌||◌, ◌⊎◌, leb, length,
}
use weftgrid.Base.Maps.{IsMap}
use weftgrid.Pty.Hub.{PaneId, remove_pane}
use weftgrid.Pty.Hub.Stream.{step-IsMap, registers, removes, reads, ends, flushes}
use weftgrid.Pty.Hub.Stream
use weftgrid.Pty.Reader.{
  ReaderPool, Spawned, started, pool_full, spawn_reader, release, contains, discard, IsCapped,
  step-IsCapped, spawns, returns,
}
use weftgrid.Pty.Reader
use weftgrid.Pty.Manager.Opening.{
  is_open, contains-discard, is_open-register, is_open-remove_pane, is_open-on_eof,
  is_open-flush_due,
}
use weftgrid.Pty.Manager.Interleaving.{
  System, registers_pane, asks_pool, withdraws, drops_entry, tells_end, leaves, ticks, drop_one,
  admitted, advance,
}

-- A live reader of the pane has yet to tell of its end, or a spawn of the pane is not through with the
-- pool: it will start a reader, or remove the entry.
abbrev pub is_fed : System → PaneId → Bool
is_fed s p =
    (contains p s.manager.pool.active && not (contains p s.leaving))
    || (contains p s.spawning || contains p s.withdrawing)

pub record IsFed (s : System) : Type 0 where
  pub capped : IsCapped s.manager.pool
  pub hub_map : IsMap s.manager.hub.panes
  pub pane_map : IsMap s.manager.panes
  pub leaving_live :
      (p : PaneId) → contains p s.leaving ≡ true → contains p s.manager.pool.active ≡ true
  pub fed : (p : PaneId) → is_open p s.manager.hub ≡ true → is_fed s p ≡ true

-- What `try_admit` makes of the pool when it admits the pane.
abbrev pub admitting : ReaderPool → PaneId → ReaderPool
admitting pool q = record pool { active = q ∷ pool.active; count = length (q ∷ pool.active) }

contains-cons :
    (p q : PaneId) (ps : List PaneId)
    → contains p (q ∷ ps) ≡ ite (bytes_discrete q p) true (contains p ps)
unfolding contains
contains-cons p q ps = refl

contains-drop_one :
    (p q : PaneId) (ps : List PaneId) → q ≢ p → contains p (drop_one q ps) ≡ contains p ps
unfolding contains drop_one
contains-drop_one p q [] n = refl
contains-drop_one p q (r ∷ ps) n = ground (arith, contains-drop_one p q ps n)

pub registers-IsFed : (s : System) (q : PaneId) → IsFed s → IsFed (advance s (registers_pane q))
unfolding advance Stream.step
registers-IsFed s q f = record {
  capped = f.capped;
  hub_map = step-IsMap s.manager.hub (registers q) f.hub_map;
  pane_map = f.pane_map;
  leaving_live = f.leaving_live;
  fed = λ p o.
      ground (arith, is_open-register s.manager.hub q p, contains-cons p q s.spawning, f.fed p);
}

pub ticks-IsFed : (s : System) (now : ℕ) → IsFed s → IsFed (advance s (ticks now))
unfolding advance Stream.step
ticks-IsFed s now f = record {
  capped = f.capped;
  hub_map = step-IsMap s.manager.hub (flushes now) f.hub_map;
  pane_map = f.pane_map;
  leaving_live = f.leaving_live;
  fed = λ p o. f.fed p (is_open-flush_due s.manager.hub now p f.hub_map o);
}

-- A pane that is not in the pool has no reader that leaves.
not_leaving :
    (s : System) (q : PaneId)
    → IsFed s
    → contains q s.manager.pool.active ≡ false
    → contains q s.leaving ≡ false
not_leaving s q f h = elim (Bool-cases (contains q s.leaving)) [
  | inl e ↦ let k = f.leaving_live q e in cc (h, k)
  | inr e ↦ e
]

admitted-IsFed :
    (s : System) (q : PaneId) (r : ReaderPool × Spawned)
    → IsFed s
    → IsCapped r.0
    → ((r ≡ (admitting s.manager.pool q, started)) × (contains q s.manager.pool.active ≡ false))
      ⊎ (r ≡ (s.manager.pool, pool_full s.manager.pool.cap s.manager.pool.count))
    → IsFed (admitted s q r)
unfolding admitted
admitted-IsFed s q r f c (inl (e, new)) = rw e (record {
  capped = rw e at c;
  hub_map = f.hub_map;
  pane_map = f.pane_map;
  leaving_live = λ p h. ground (arith, contains-cons p q s.manager.pool.active, f.leaving_live p h);
  fed = λ p o. ground (
    arith,
    f.fed p o,
    not_leaving s q f new,
    contains-cons p q s.manager.pool.active,
    contains-drop_one p q s.spawning,
  );
})
admitted-IsFed s q r f c (inr e) = rw e (record {
  capped = f.capped;
  hub_map = f.hub_map;
  pane_map = f.pane_map;
  leaving_live = f.leaving_live;
  fed = λ p o.
      ground (arith, f.fed p o, contains-cons p q s.withdrawing, contains-drop_one p q s.spawning);
})

removes-IsFed :
    (s : System) (q : PaneId) (p : PaneId)
    → IsFed s
    → is_open p (remove_pane s.manager.hub q) ≡ true
    → (q ≢ p) × (is_fed s p ≡ true)
removes-IsFed s q p f o = elim (bytes_discrete q p) [
  | yes e ↦ ground (arith, is_open-remove_pane s.manager.hub q p)
  | no n ↦ (n, f.fed p (ground (arith, is_open-remove_pane s.manager.hub q p)))
]

pub withdraws-IsFed : (s : System) (q : PaneId) → IsFed s → IsFed (advance s (withdraws q))
unfolding advance Stream.step
withdraws-IsFed s q f = elim (Bool-cases (contains q s.withdrawing)) [
  | inl e ↦ rw e (record {
    capped = f.capped;
    hub_map = step-IsMap s.manager.hub (removes q) f.hub_map;
    pane_map = f.pane_map;
    leaving_live = f.leaving_live;
    fed = λ p o.
        let k = removes-IsFed s q p f o in
        ground (arith, k.1, contains-drop_one p q s.withdrawing k.0);
  })
  | inr e ↦ rw e f
]

pub drops-IsFed : (s : System) (q : PaneId) → IsFed s → IsFed (advance s (drops_entry q))
unfolding advance Stream.step
drops-IsFed s q f = elim (Bool-cases (contains q s.dropping)) [
  | inl e ↦ rw e (record {
    capped = f.capped;
    hub_map = step-IsMap s.manager.hub (removes q) f.hub_map;
    pane_map = f.pane_map;
    leaving_live = f.leaving_live;
    fed = λ p o. (removes-IsFed s q p f o).1;
  })
  | inr e ↦ rw e f
]

pub tells-IsFed : (s : System) (q : PaneId) → IsFed s → IsFed (advance s (tells_end q))
unfolding advance Stream.step
tells-IsFed s q f =
    elim (Bool-cases (contains q s.manager.pool.active && not (contains q s.leaving))) [
      | inl e ↦ rw e (record {
        capped = f.capped;
        hub_map = step-IsMap s.manager.hub (ends q) f.hub_map;
        pane_map = f.pane_map;
        leaving_live = λ p h. elim (bytes_discrete q p) [
          | yes k ↦ ground (arith, e)
          | no k ↦ f.leaving_live p (ground (arith, contains-cons p q s.leaving))
        ];
        fed = λ p o. ground (
          arith,
          is_open-on_eof s.manager.hub q p f.hub_map,
          contains-cons p q s.leaving,
          f.fed p,
        );
      })
      | inr e ↦ rw e f
    ]

pub leaves-IsFed : (s : System) (q : PaneId) → IsFed s → IsFed (advance s (leaves q))
unfolding advance Reader.step release
leaves-IsFed s q f = elim (Bool-cases (contains q s.leaving)) [
  | inl e ↦ rw e (record {
    capped = step-IsCapped s.manager.pool (returns q) f.capped;
    hub_map = f.hub_map;
    pane_map = f.pane_map;
    leaving_live = λ p h. ground (
      arith,
      contains-discard p q s.leaving,
      contains-discard p q s.manager.pool.active,
      f.leaving_live p,
    );
    fed = λ p o. elim (bytes_discrete q p) [
      | yes k ↦ ground (arith, f.fed p o, e)
      | no k ↦ ground (
        arith,
        f.fed p o,
        contains-discard p q s.leaving,
        contains-discard p q s.manager.pool.active,
      )
    ];
  })
  | inr e ↦ rw e f
]

-- `spawn_reader` admits only a pane without a reader.
pub spawn_reader-new :
    (pool : ReaderPool) (q : PaneId)
    → ((spawn_reader pool q ≡ (admitting pool q, started)) × (contains q pool.active ≡ false))
      ⊎ (spawn_reader pool q ≡ (pool, pool_full pool.cap pool.count))
unfolding spawn_reader
spawn_reader-new pool q =
    elim (Bool-cases (leb pool.cap (length pool.active) || contains q pool.active)) [
      | inl e ↦ inr (rw e refl)
      | inr e ↦ inl (rw e refl, ground (arith, e))
    ]

pub asks-IsFed : (s : System) (q : PaneId) → IsFed s → IsFed (advance s (asks_pool q))
unfolding advance Reader.step
asks-IsFed s q f = elim (Bool-cases (contains q s.spawning)) [
  | inl e ↦ rw e (
      admitted-IsFed s q (spawn_reader s.manager.pool q) f
        (step-IsCapped s.manager.pool (spawns q) f.capped) (spawn_reader-new s.manager.pool q))
  | inr e ↦ rw e f
]
