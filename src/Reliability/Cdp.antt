-- ===== src/Reliability/Cdp.antt =====
-- src-tauri/src/reliability/cdp_reconnect.rs: the reconnect loop. `connect` is a function on a state
-- `W` of its own; the waits that are told to `on_wait` are the first part of the result.
use weftgrid.Base.{
  ℕ, zero, suc, ◌+◌, ◌<◌, ◌≤◌, ◌≡◌, refl, ap, ◌∙◌, Bool, true, false, List, [], ◌∷◌, arith, leb,
  if◌then◌else◌, Option, none, some, Bool-cases, inl, inr, replicate, ◌++◌, leb→le,
}
use weftgrid.Reliability.Backoff.{Floats, BackoffSchedule, delay_for, schedule_from}

pub data ReconnectStep : Type 0 where
  retry : ℕ → ℕ → ReconnectStep
  degrade : ReconnectStep

pub data ReconnectResult : Type 0 where
  reconnected : ℕ → ReconnectResult
  degraded : ReconnectResult

-- A wait in front of those of the rest of a run.
unfoldable pub after_wait :
    {W : Type 0} → ℕ → Option (List ℕ × W × ReconnectResult) → Option (List ℕ × W × ReconnectResult)
after_wait delay none = none
after_wait delay (some (waits, w, r)) = some (delay ∷ waits, w, r)

module _ (fl : Floats) where
  pub record ReconnectPolicy : Type 0 where
    pub schedule : BackoffSchedule fl
    pub max_attempts : ℕ

  unfoldable pub plan_reconnect : ReconnectPolicy → ℕ → ReconnectStep
  plan_reconnect policy attempts_done =
      if leb policy.max_attempts attempts_done
      then degrade
      else retry (attempts_done + 1) (delay_for fl policy.schedule attempts_done)

  module _ {W : Type 0} (connect : W → ℕ → W × Bool) where
    -- The loop, on fuel: `none` where the fuel runs out.
    unfoldable pub run_from : ReconnectPolicy → ℕ → W → ℕ → Option (List ℕ × W × ReconnectResult)
    unfolding plan_reconnect
    run_from policy zero w attempts_done = none
    run_from policy (suc fuel) w attempts_done = elim (plan_reconnect policy attempts_done) [
      | degrade ↦ some ([], w, degraded)
      | retry attempt delay ↦
          if (connect w attempt).1
          then some (delay ∷ [], (connect w attempt).0, reconnected attempt)
          else after_wait delay (run_from policy fuel (connect w attempt).0 (attempts_done + 1))
    ]

    -- `attempts_done` counts up to `max_attempts`.
    unfoldable pub run_reconnect : ReconnectPolicy → W → Option (List ℕ × W × ReconnectResult)
    unfolding run_from
    run_reconnect policy w = run_from policy (policy.max_attempts + 1) w 0

    -- What `connect` answers to the `n` attempts after `attempts_done`.
    unfoldable pub answers : W → ℕ → ℕ → List Bool
    answers w attempts_done zero = []
    answers w attempts_done (suc n) =
        (connect w (attempts_done + 1)).1
        ∷ answers (connect w (attempts_done + 1)).0 (attempts_done + 1) n

    -- What a run from `attempts_done` on does: it waits as the schedule says in front of each attempt,
    -- and it ends with the first attempt that connects, or degraded after all.
    abbrev pub IsRun : ReconnectPolicy → W → ℕ → List ℕ → ReconnectResult → Type 0
    IsRun policy w attempts_done waits (reconnected attempt) =
        (k : ℕ) × (attempt ≡ attempts_done + k + 1)
        × (attempt ≤ policy.max_attempts)
        × (waits ≡ schedule_from fl policy.schedule attempts_done (suc k))
        × (answers w attempts_done (suc k) ≡ replicate k false ++ true ∷ [])
    IsRun policy w attempts_done waits degraded =
        (k : ℕ) × (attempts_done + k ≡ policy.max_attempts)
        × (waits ≡ schedule_from fl policy.schedule attempts_done k)
        × (answers w attempts_done k ≡ replicate k false)

    IsRun-step :
        (policy : ReconnectPolicy) (w : W) (n : ℕ) (waits : List ℕ) (r : ReconnectResult)
        → (connect w (n + 1)).1 ≡ false
        → IsRun policy (connect w (n + 1)).0 (n + 1) waits r
        → IsRun policy w n (delay_for fl policy.schedule n ∷ waits) r
    unfolding answers schedule_from
    IsRun-step policy w n waits (reconnected a) h (k, ea, le, ew, eb) = (
      suc k,
      omega (arith, ea),
      le,
      ap (◌∷◌ (delay_for fl policy.schedule n)) ew,
      rw h (ap (◌∷◌ false) eb),
    )
    IsRun-step policy w n waits degraded h (k, ea, ew, eb) = (
      suc k,
      omega (arith, ea),
      ap (◌∷◌ (delay_for fl policy.schedule n)) ew,
      rw h (ap (◌∷◌ false) eb),
    )

    run_from-again :
        (policy : ReconnectPolicy) (fuel : ℕ) (w : W) (n : ℕ)
        → leb policy.max_attempts n ≡ false
        → (connect w (n + 1)).1 ≡ false
        → run_from policy (suc fuel) w n
          ≡ after_wait
              (delay_for fl policy.schedule n)
              (run_from policy fuel (connect w (n + 1)).0 (n + 1))
    unfolding run_from plan_reconnect
    run_from-again policy fuel w n e c = ground arith

    run_from-IsRun :
        (policy : ReconnectPolicy) (fuel : ℕ) (w : W) (n : ℕ)
        → n ≤ policy.max_attempts
        → policy.max_attempts < n + fuel
        → (waits : List ℕ) × (u : W) × (r : ReconnectResult) × (run_from policy fuel w n
            ≡ some (waits, u, r))
          × IsRun policy w n waits r
    unfolding run_from plan_reconnect answers schedule_from after_wait
    run_from-IsRun policy zero w n le lt = absurd (omega (arith, le, lt))
    run_from-IsRun policy (suc fuel) w n le lt = elim (Bool-cases (leb policy.max_attempts n)) [
      | inl e ↦
          rw (run_from, e) ([], w, degraded, refl, (0, omega (arith, le, leb→le _ _ e), refl, refl))
      | inr e ↦ elim (Bool-cases (connect w (n + 1)).1) [
        | inl c ↦
            rw (run_from, e, c)
              (
                delay_for fl policy.schedule n ∷ [],
                (connect w (n + 1)).0,
                reconnected (n + 1),
                refl,
                (0, omega arith, ground (arith, e), refl, rw c refl),
              )
        | inr c ↦
            let rest =
              run_from-IsRun policy fuel (connect w (n + 1)).0 (n + 1) (ground (arith, e))
                (omega (arith, lt)) in
            (
              delay_for fl policy.schedule n ∷ rest.0,
              rest.1,
              rest.2,
              run_from-again policy fuel w n e c
                  ∙ ap (after_wait (delay_for fl policy.schedule n)) rest.3,
              IsRun-step policy w n rest.0 rest.2 c rest.4,
            )
      ]
    ]

    -- A reconnect run always ends: it waits as the schedule says in front of each attempt, and it
    -- returns the number of the first attempt that connects, at most `max_attempts`, or `degraded`
    -- after `max_attempts` attempts that all failed.
    pub run_reconnect-IsRun :
        (policy : ReconnectPolicy) (w : W)
        → (waits : List ℕ) × (u : W) × (r : ReconnectResult) × (run_reconnect policy w
            ≡ some (waits, u, r))
          × IsRun policy w 0 waits r
    unfolding run_reconnect
    run_reconnect-IsRun policy w =
        run_from-IsRun policy (policy.max_attempts + 1) w 0 (omega arith) (omega arith)
