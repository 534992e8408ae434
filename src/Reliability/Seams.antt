-- ===== src/Reliability/Seams.antt =====
-- src-tauri/src/reliability/webview_recovery.rs and overlay_recovery.rs: what handles one crash of a
-- pane's window. The injected traits are functions on a state `W` of theirs.
pub mod Storm
use weftgrid.Base.{◌++◌, Bytes}
use weftgrid.Base.Results.{Result, ok, err}
use weftgrid.Base.Text.{codes}
use weftgrid.Reliability.Backoff.{Floats}
use weftgrid.Reliability.Guard.{
  RecoveryDecision, recover, duplicate, give_up, RecoveryGuard, on_failure, mark_recovered,
  mark_failed,
}

pub data RecoveryOutcome : Type 0 where
  recovered : Bytes → RecoveryOutcome
  skipped gave_up : RecoveryOutcome
  failed : Bytes → RecoveryOutcome

-- The crash state after a handler: the guard, the state of the seams, the outcome.
abbrev pub Handled : Floats → Type 0 → Type 0
Handled fl W = RecoveryGuard fl × W × RecoveryOutcome

module _ (fl : Floats) {W : Type 0} where
  -- What the handlers do with the result of their second part.
  unfoldable pub finish :
      Bytes → RecoveryGuard fl → Bytes → W × Result (Unit {0}) Bytes → Handled fl W
  unfolding mark_recovered mark_failed
  finish what g label (w, ok _) = (mark_recovered fl g, w, recovered label)
  finish what g label (w, err e) = (mark_failed fl g, w, failed (what ++ e))

module _ (fl : Floats) {W P : Type 0} where
  unfoldable pub restore_after :
      (W → P → W × Result (Unit {0}) Bytes)
      → RecoveryGuard fl
      → P
      → W × Result Bytes Bytes
      → Handled fl W
  unfolding finish mark_failed
  restore_after restore g pane (w, ok label) =
      finish fl (codes "restore failed: ") g label (restore w pane)
  restore_after restore g pane (w, err e) =
      (mark_failed fl g, w, failed (codes "recreate failed: " ++ e))

  unfoldable pub handle_process_failed :
      (W → P → W × Result Bytes Bytes)
      → (W → P → W × Result (Unit {0}) Bytes)
      → RecoveryGuard fl
      → W
      → P
      → Handled fl W
  unfolding on_failure restore_after
  handle_process_failed recreate restore g w pane = elim ((on_failure fl g).1) [
    | duplicate ↦ ((on_failure fl g).0, w, skipped)
    | give_up ↦ ((on_failure fl g).0, w, gave_up)
    | recover _ _ ↦ restore_after restore (on_failure fl g).0 pane (recreate w pane)
  ]

  unfoldable pub resync_after :
      (W → P → W × Result (Unit {0}) Bytes)
      → RecoveryGuard fl
      → P
      → W × Result Bytes Bytes
      → Handled fl W
  unfolding finish mark_failed
  resync_after resync_bounds g pane (w, ok label) =
      finish fl (codes "resync failed: ") g label (resync_bounds w pane)
  resync_after resync_bounds g pane (w, err e) =
      (mark_failed fl g, w, failed (codes "recreate failed: " ++ e))

  unfoldable pub handle_overlay_crash :
      (W → P → W × Result Bytes Bytes)
      → (W → P → W × Result (Unit {0}) Bytes)
      → RecoveryGuard fl
      → W
      → P
      → Handled fl W
  unfolding on_failure resync_after
  handle_overlay_crash recreate_overlay resync_bounds g w pane = elim ((on_failure fl g).1) [
    | duplicate ↦ ((on_failure fl g).0, w, skipped)
    | give_up ↦ ((on_failure fl g).0, w, gave_up)
    | recover _ _ ↦ resync_after resync_bounds (on_failure fl g).0 pane (recreate_overlay w pane)
  ]
