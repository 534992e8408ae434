-- ===== src/Reliability/Backoff.antt =====
-- src-tauri/src/reliability/recovery/backoff.rs. Durations are nanoseconds; `f64` and the
-- conversions of `Duration` are the parameter `Floats`.
use weftgrid.Base.{ℕ, zero, suc, ◌+◌, min, Bool, not, ◌||◌, List, [], ◌∷◌, if◌then◌else◌}

pub record Floats : Type 1 where
  pub F64 : Type 0
  pub as_secs_f64 : ℕ → F64
  pub powi : F64 → ℕ → F64
  pub times : F64 → F64 → F64
  pub is_finite : F64 → Bool
  pub at_least : F64 → F64 → Bool
  pub from_secs_f64 : F64 → ℕ

module _ (fl : Floats) where
  open fl use {F64, as_secs_f64, powi, times, is_finite, at_least, from_secs_f64}

  pub record BackoffSchedule : Type 0 where
    pub base : ℕ
    pub max : ℕ
    pub factor : F64

  unfoldable pub delay_for : BackoffSchedule → ℕ → ℕ
  delay_for s attempt =
      let grown = times (as_secs_f64 s.base) (powi s.factor (min attempt 1024)) in
      if not (is_finite grown) || at_least grown (as_secs_f64 s.max)
      then s.max
      else from_secs_f64 grown

  -- The delays from index `n` on, `count` of them.
  unfoldable pub schedule_from : BackoffSchedule → ℕ → ℕ → List ℕ
  unfolding delay_for
  schedule_from s n zero = []
  schedule_from s n (suc count) = delay_for s n ∷ schedule_from s (n + 1) count

  abbrev pub schedule : BackoffSchedule → ℕ → List ℕ
  schedule s = schedule_from s 0
