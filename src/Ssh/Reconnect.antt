-- ===== src/Ssh/Reconnect.antt =====
-- src-tauri/src/ssh/reconnect.rs. Durations are nanoseconds; `attempt` is a u32 that wraps as a release
-- build's does.
pub mod Retries
use weftgrid.Base.{
  ℕ, ◌+◌, ◌-◌, ◌*◌, ◌/◌, ◌%◌, ◌^◌, min, Option, none, some, ◌++◌, ltb, if◌then◌else◌, Bytes,
}
use weftgrid.Base.Text.{codes}
use weftgrid.Base.Decimal.{decimal}

pub data ConnectionStatus : Type 0 where
  connecting connected : ConnectionStatus
  reconnecting : ℕ → ℕ → ConnectionStatus
  failed : Bytes → ConnectionStatus
  disconnected : ConnectionStatus

pub record ReconnectPolicy : Type 0 where
  pub max_attempts : ℕ
  pub base_delay : ℕ
  pub max_delay : ℕ

abbrev pub default_policy : ReconnectPolicy
default_policy = record { max_attempts = 5; base_delay = 500000000; max_delay = 8000000000 }

-- `Duration::checked_mul`: a duration has less than 2 ^ 64 seconds.
unfoldable pub checked_mul : ℕ → ℕ → Option ℕ
checked_mul d n = if ltb (d * n) (2 ^ 64 * 1000000000) then some (d * n) else none

unfoldable pub unwrap_or : Option ℕ → ℕ → ℕ
unwrap_or none d = d
unwrap_or (some n) d = n

unfoldable pub backoff_for : ReconnectPolicy → ℕ → ℕ
unfolding checked_mul unwrap_or
backoff_for policy attempt =
    let shift = min (attempt - 1) 31 in
    let scaled = unwrap_or (checked_mul policy.base_delay (2 ^ shift)) policy.max_delay in
    min scaled policy.max_delay

pub record ReconnectSupervisor : Type 0 where
  pub policy : ReconnectPolicy
  pub status : ConnectionStatus
  pub attempt : ℕ

abbrev pub new : ReconnectPolicy → ReconnectSupervisor
new policy = record { policy = policy; status = connecting; attempt = 0 }

unfoldable pub record_connected : ReconnectSupervisor → ReconnectSupervisor
record_connected s = record s { attempt = 0; status = connected }

-- `advance_attempt` once the counter is `n`
unfoldable pub advance_to : ReconnectSupervisor → Bytes → ℕ → ReconnectSupervisor × Option ℕ
unfolding backoff_for decimal
advance_to s reason n =
    if ltb s.policy.max_attempts n
    then (
      record s {
        attempt = n;
        status =
            failed
              (reason ++ codes ": retries exhausted (" ++ decimal (n - 1) ++ codes " attempts)");
      },
      none,
    )
    else (
      record s { attempt = n; status = reconnecting n (backoff_for s.policy n / 1000000 % 2 ^ 64) },
      some (backoff_for s.policy n),
    )

unfoldable pub advance_attempt : ReconnectSupervisor → Bytes → ReconnectSupervisor × Option ℕ
unfolding advance_to
advance_attempt s reason = advance_to s reason ((s.attempt + 1) % 2 ^ 32)

unfoldable pub record_drop : ReconnectSupervisor → ReconnectSupervisor × Option ℕ
unfolding advance_attempt
record_drop s = advance_attempt s (codes "connection dropped")

unfoldable pub record_attempt_failed : ReconnectSupervisor → ReconnectSupervisor × Option ℕ
unfolding advance_attempt
record_attempt_failed s = advance_attempt s (codes "reconnect attempt failed")

unfoldable pub record_fatal : ReconnectSupervisor → Bytes → ReconnectSupervisor
record_fatal s reason = record s { status = failed reason }

unfoldable pub record_disconnected : ReconnectSupervisor → ReconnectSupervisor
record_disconnected s = record s { status = disconnected }
