-- ===== src/Reliability/Seams/Storm.antt =====
-- Crashes that come one after another, and what the handlers make of them.
use weftgrid.Base.{
  ◌+◌, ◌-◌, ◌≤◌, ◌≡◌, refl, min, Bool, true, false, List, [], ◌∷◌, arith, ◌<◌, Bytes, length,
  count_if,
}
use weftgrid.Base.Results.{Result, ok, err}
use weftgrid.Base.Text.{codes}
use weftgrid.Reliability.Backoff.{Floats}
use weftgrid.Reliability.Guard.{RecoveryGuard, on_failure, mark_recovered, mark_failed}
use weftgrid.Reliability.Seams.{
  RecoveryOutcome, recovered, skipped, gave_up, failed, Handled, finish, restore_after,
  resync_after, handle_process_failed, handle_overlay_crash,
}

-- The handler tried to recover.
abbrev pub is_tried : RecoveryOutcome → Bool
is_tried (recovered _) = true
is_tried (failed _) = true
is_tried skipped = false
is_tried gave_up = false

module _ (fl : Floats) {W : Type 0} where
  -- What a handled crash does to a guard that is not recovering.
  abbrev pub IsSettled : RecoveryGuard fl → W → Handled fl W → Type 0
  IsSettled g w h =
      (h.0.recovering ≡ false)
      × (h.0.max_retries ≡ g.max_retries)
      × (g.max_retries ≤ g.attempts → (h.0.attempts ≡ g.attempts) × (is_tried h.2 ≡ false))
      × (g.attempts < g.max_retries → (h.0.attempts ≡ g.attempts + 1) × (is_tried h.2 ≡ true))

module _ (fl : Floats) {W P : Type 0} where
  module _ (handle : RecoveryGuard fl → W → P → Handled fl W) where
    -- The crashes of the panes, one after another, and the outcomes.
    unfoldable pub storm :
        RecoveryGuard fl → W → List P → RecoveryGuard fl × W × List RecoveryOutcome
    storm g w [] = (g, w, [])
    storm g w (p ∷ ps) =
        let h = handle g w p in let rest = storm h.0 h.1 ps in (rest.0, rest.1, h.2 ∷ rest.2)

    storm-settles :
        ((g : RecoveryGuard fl) (w : W) (p : P)
          → g.recovering ≡ false
          → IsSettled fl g w (handle g w p))
        → (g : RecoveryGuard fl) (w : W) (ps : List P) → g.recovering ≡ false
        → ((storm g w ps).0.recovering ≡ false)
          × (count_if is_tried (storm g w ps).2 ≡ min (length ps) (g.max_retries - g.attempts))
    unfolding storm
    storm-settles settles g w [] h = (h, omega arith)
    storm-settles settles g w (p ∷ ps) h =
        let now = settles g w p h in
        let later = storm-settles settles (handle g w p).0 (handle g w p).1 ps now.0 in
        (later.0, ground (arith, now, later.1))

module _ (fl : Floats) {W : Type 0} where
  -- The guard and the outcome after the parts of an attempt.
  abbrev IsAttempt : RecoveryGuard fl → Handled fl W → Type 0
  IsAttempt g h =
      (h.0.recovering ≡ false)
      × (h.0.max_retries ≡ g.max_retries)
      × (h.0.attempts ≡ g.attempts)
      × (is_tried h.2 ≡ true)

  finish-IsAttempt :
      (what : Bytes) (g : RecoveryGuard fl) (label : Bytes) (r : W × Result (Unit {0}) Bytes)
      → IsAttempt g (finish fl what g label r)
  unfolding finish mark_recovered mark_failed
  finish-IsAttempt what g label (w, ok _) = (refl, refl, refl, refl)
  finish-IsAttempt what g label (w, err _) = (refl, refl, refl, refl)

module _ (fl : Floats) {W P : Type 0} (second : W → P → W × Result (Unit {0}) Bytes) where
  restore_after-IsAttempt :
      (g : RecoveryGuard fl) (pane : P) (r : W × Result Bytes Bytes)
      → IsAttempt fl g (restore_after fl second g pane r)
  unfolding restore_after mark_failed
  restore_after-IsAttempt g pane (w, ok label) =
      finish-IsAttempt fl (codes "restore failed: ") g label (second w pane)
  restore_after-IsAttempt g pane (w, err _) = (refl, refl, refl, refl)

  resync_after-IsAttempt :
      (g : RecoveryGuard fl) (pane : P) (r : W × Result Bytes Bytes)
      → IsAttempt fl g (resync_after fl second g pane r)
  unfolding resync_after mark_failed
  resync_after-IsAttempt g pane (w, ok label) =
      finish-IsAttempt fl (codes "resync failed: ") g label (second w pane)
  resync_after-IsAttempt g pane (w, err _) = (refl, refl, refl, refl)

  module _ (first : W → P → W × Result Bytes Bytes) where
    handle_process_failed-settles :
        (g : RecoveryGuard fl) (w : W) (pane : P)
        → g.recovering ≡ false
        → IsSettled fl g w (handle_process_failed fl first second g w pane)
    unfolding handle_process_failed on_failure
    handle_process_failed-settles g w pane h = ground (
      arith,
      restore_after-IsAttempt (record g { attempts = g.attempts + 1; recovering = true }) pane
          (first w pane),
    )

    handle_overlay_crash-settles :
        (g : RecoveryGuard fl) (w : W) (pane : P)
        → g.recovering ≡ false
        → IsSettled fl g w (handle_overlay_crash fl first second g w pane)
    unfolding handle_overlay_crash on_failure
    handle_overlay_crash-settles g w pane h = ground (
      arith,
      resync_after-IsAttempt (record g { attempts = g.attempts + 1; recovering = true }) pane
          (first w pane),
    )

    -- From a guard that is not recovering: through any crashes of panes, one after another, the webview
    -- handler tries a recovery for as many as the guard has retries left and for no others, whatever the
    -- recreations and restores return, and the guard is not left recovering.
    pub process_failures-settle :
        (g : RecoveryGuard fl) (w : W) (panes : List P)
        → g.recovering ≡ false
        → ((storm fl (handle_process_failed fl first second) g w panes).0.recovering ≡ false)
          × (count_if is_tried (storm fl (handle_process_failed fl first second) g w panes).2
              ≡ min (length panes) (g.max_retries - g.attempts))
    process_failures-settle = storm-settles fl _ handle_process_failed-settles

    -- From a guard that is not recovering: through any crashes of overlays, one after another, the
    -- overlay handler tries a recovery for as many as the guard has retries left and for no others,
    -- whatever the recreations and resyncs return, and the guard is not left recovering.
    pub overlay_crashes-settle :
        (g : RecoveryGuard fl) (w : W) (panes : List P)
        → g.recovering ≡ false
        → ((storm fl (handle_overlay_crash fl first second) g w panes).0.recovering ≡ false)
          × (count_if is_tried (storm fl (handle_overlay_crash fl first second) g w panes).2
              ≡ min (length panes) (g.max_retries - g.attempts))
    overlay_crashes-settle = storm-settles fl _ handle_overlay_crash-settles
