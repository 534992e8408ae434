-- ===== src/Reliability/Guard.antt =====
-- src-tauri/src/reliability/recovery.rs: `RecoveryGuard`. `delay_for` is the guard's schedule.
pub mod Budget
use weftgrid.Base.{ℕ, ◌+◌, ◌%◌, ◌^◌, Bool, true, false, leb, if◌then◌else◌}
use weftgrid.Reliability.Backoff.{Floats, BackoffSchedule, delay_for}

pub data RecoveryDecision : Type 0 where
  recover : ℕ → ℕ → RecoveryDecision
  duplicate give_up : RecoveryDecision

module _ (fl : Floats) where
  pub record RecoveryGuard : Type 0 where
    pub schedule : BackoffSchedule fl
    pub max_retries : ℕ
    pub cooldown : ℕ
    pub attempts : ℕ
    pub recovering : Bool
    pub generation : ℕ

  abbrev pub new : BackoffSchedule fl → ℕ → ℕ → RecoveryGuard
  new schedule max_retries cooldown = record {
    schedule = schedule;
    max_retries = max_retries;
    cooldown = cooldown;
    attempts = 0;
    recovering = false;
    generation = 0;
  }

  unfoldable pub on_failure : RecoveryGuard → RecoveryGuard × RecoveryDecision
  on_failure g =
      if g.recovering
      then (g, duplicate)
      else if leb g.max_retries g.attempts
      then (g, give_up)
      else (
        record g { attempts = g.attempts + 1; recovering = true },
        recover (g.attempts + 1) (delay_for fl g.schedule g.attempts),
      )

  unfoldable pub mark_recovered : RecoveryGuard → RecoveryGuard
  mark_recovered g = record g { recovering = false; generation = (g.generation + 1) % 2 ^ 64 }

  unfoldable pub mark_failed : RecoveryGuard → RecoveryGuard
  mark_failed g = record g { recovering = false }

  unfoldable pub cooldown_elapsed : RecoveryGuard → ℕ → RecoveryGuard × Bool
  cooldown_elapsed g stable_for =
      if leb g.cooldown stable_for then (record g { attempts = 0 }, true) else (g, false)
