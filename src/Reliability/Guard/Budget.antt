-- ===== src/Reliability/Guard/Budget.antt =====
-- How often a guard lets a recovery start.
use weftgrid.Base.{
  ℕ, zero, suc, replicate, ◌+◌, ◌*◌, ◌≤◌, ◌≡◌, refl, true, List, [], ◌∷◌, arith, if◌then◌else◌,
}
use native.Mathlib.Nat.{mul-add}
use weftgrid.Reliability.Backoff.{Floats}
use weftgrid.Reliability.Guard.{
  RecoveryDecision, recover, duplicate, give_up, RecoveryGuard, on_failure, mark_recovered,
  mark_failed, cooldown_elapsed,
}

-- What happens to a guard.
pub data Event : Type 0 where
  fails recovers gives_out : Event
  is_stable : ℕ → Event

-- 1 for a decision to recover
abbrev pub started : RecoveryDecision → ℕ
started (recover _ _) = 1
started duplicate = 0
started give_up = 0

module _ (fl : Floats) where
  abbrev Guard : Type 0
  Guard = RecoveryGuard fl

  unfoldable pub handle : Guard → Event → Guard
  unfolding on_failure mark_recovered mark_failed cooldown_elapsed
  handle g fails = (on_failure fl g).0
  handle g recovers = mark_recovered fl g
  handle g gives_out = mark_failed fl g
  handle g (is_stable d) = (cooldown_elapsed fl g d).0

  -- Recoveries that the event starts.
  unfoldable pub starts : Guard → Event → ℕ
  unfolding on_failure
  starts g fails = started (on_failure fl g).1
  starts g recovers = 0
  starts g gives_out = 0
  starts g (is_stable d) = 0

  -- 1 for an event that gives the budget back
  unfoldable pub refills : Guard → Event → ℕ
  unfolding cooldown_elapsed
  refills g (is_stable d) = if (cooldown_elapsed fl g d).1 then 1 else 0
  refills g fails = 0
  refills g recovers = 0
  refills g gives_out = 0

  unfoldable pub run : Guard → List Event → Guard
  run g [] = g
  run g (e ∷ es) = run (handle g e) es

  unfoldable pub all_starts : Guard → List Event → ℕ
  all_starts g [] = 0
  all_starts g (e ∷ es) = starts g e + all_starts (handle g e) es

  unfoldable pub all_refills : Guard → List Event → ℕ
  all_refills g [] = 0
  all_refills g (e ∷ es) = refills g e + all_refills (handle g e) es

  handle_max : (g : Guard) (e : Event) → (handle g e).max_retries ≡ g.max_retries
  unfolding handle
  handle_max g fails = ground arith
  handle_max g recovers = refl
  handle_max g gives_out = refl
  handle_max g (is_stable d) = ground arith

  handle_budget :
      (g : Guard) (e : Event)
      → g.attempts ≤ g.max_retries
      → ((handle g e).attempts ≤ g.max_retries)
        × (starts g e + g.attempts ≤ (handle g e).attempts + g.max_retries * refills g e)
  unfolding handle starts refills
  handle_budget g fails h = ground arith
  handle_budget g recovers h = ground arith
  handle_budget g gives_out h = ground arith
  handle_budget g (is_stable d) h = ground arith

  budget_spent :
      (g : Guard) (es : List Event)
      → g.attempts ≤ g.max_retries
      → ((run g es).attempts ≤ g.max_retries)
        × (all_starts g es + g.attempts ≤ (run g es).attempts + g.max_retries * all_refills g es)
  unfolding run all_starts all_refills handle
  budget_spent g [] h = (h, omega arith)
  budget_spent g (e ∷ es) h =
      let now = handle_budget g e h in
      let same = handle_max g e in
      let later = budget_spent (handle g e) es (rw same now.0) in
      (
        rw same at later.0,
        omega (
          arith,
          now.1,
          rw same at later.1,
          mul-add g.max_retries (refills g e) (all_refills (handle g e) es),
        ),
      )

  -- From a guard that has used no more retries than it has, any events start at most `max_retries`
  -- recoveries, and as many again for each time that a stable period gave the budget back: a crash
  -- loop ends.
  pub all_starts-le :
      (g : Guard) (es : List Event)
      → g.attempts ≤ g.max_retries
      → all_starts g es ≤ g.max_retries * (all_refills g es + 1)
  all_starts-le g es h =
      let spent = budget_spent g es h in
      omega (arith, spent.0, spent.1, mul-add g.max_retries (all_refills g es) 1)

  -- While a guard is recovering, failures in a row, however many there are, start nothing and
  -- leave the guard as it is.
  pub duplicates :
      (g : Guard) (n : ℕ)
      → g.recovering ≡ true
      → (run g (replicate n fails) ≡ g) × (all_starts g (replicate n fails) ≡ 0)
  unfolding run all_starts handle starts on_failure
  duplicates g zero h = (refl, refl)
  duplicates g (suc n) h = ground (arith, duplicates g n h)
