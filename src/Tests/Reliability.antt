-- ===== src/Tests/Reliability.antt =====
-- Tests of the reliability track.
use mathlib.Core.List.{Perm}
use weftgrid.Base.{
  ℕ, ◌+◌, ◌-◌, ◌*◌, ◌^◌, ◌≤◌, ◌≡◌, ◌⊎◌, refl, min, Bool, true, false, some, [], ◌∷◌, List, Bytes,
  map, drop, take, All, count_if, arith, leb,
}
use weftgrid.Base.Int.{pos}
use weftgrid.Base.Results.{Result, ok, err}
use weftgrid.Base.Sort.{IsSorted}
use weftgrid.Base.Text.{codes}
use weftgrid.Reliability.Backoff.{Floats, BackoffSchedule}
use weftgrid.Reliability.Guard.{RecoveryGuard}
use weftgrid.Reliability.Guard
use weftgrid.Reliability.Guard.Budget.{
  Event, fails, recovers, gives_out, is_stable, all_starts, all_refills, all_starts-le,
}
use weftgrid.Reliability.Seams.{handle_process_failed}
use weftgrid.Reliability.Seams.Storm.{is_tried, storm, process_failures-settle}
use weftgrid.Reliability.Cdp.{
  ReconnectPolicy, ReconnectResult, run_reconnect, IsRun, run_reconnect-IsRun,
}
use weftgrid.Reliability.Rotation.{
  RotationPolicy, RotatedFile, is_newer, IsYoung, plan_retention, plan_retention-split,
}
use weftgrid.Reliability.Exit.{exit_code, describe_exit}

-- Whole seconds in place of floating-point ones.
abbrev whole : Floats
whole = record {
  F64 = ℕ;
  as_secs_f64 = λ d. d;
  powi = λ x n. x ^ n;
  times = λ x y. x * y;
  is_finite = λ x. true;
  at_least = λ x y. leb y x;
  from_secs_f64 = λ x. x;
}

abbrev doubling : BackoffSchedule whole
doubling = record { base = 1; max = 8; factor = 2 }

abbrev guard : RecoveryGuard whole
guard = Guard.new whole doubling 2 60

abbrev events : List Event
events = fails ∷ fails ∷ gives_out ∷ fails ∷ recovers ∷ is_stable 70 ∷ fails ∷ []

all_starts-le_example : all_starts whole guard events ≤ 2 * (all_refills whole guard events + 1)
all_starts-le_example = all_starts-le whole guard events (omega arith)

abbrev recovering : RecoveryGuard whole
recovering = record guard { attempts = 1; recovering = true }

-- A seam that fails for its first two calls.
abbrev recreate : ℕ → Bytes → ℕ × Result Bytes Bytes
recreate w pane = (w + 1, elim (leb 2 w) [ true ↦ ok (codes "w") | false ↦ err (codes "gone") ])

abbrev restore : ℕ → Bytes → ℕ × Result (Unit {0}) Bytes
restore w pane = (w, ok tt)

abbrev panes : List Bytes
panes = codes "p" ∷ codes "p" ∷ codes "q" ∷ []

process_failures-settle_example :
    ((storm whole (handle_process_failed whole recreate restore) guard 0 panes).0.recovering
      ≡ false)
    × (count_if is_tried
          (storm whole (handle_process_failed whole recreate restore) guard 0 panes).2
        ≡ min 3 (2 - 0))
process_failures-settle_example = process_failures-settle whole restore recreate guard 0 panes refl

abbrev connect : ℕ → ℕ → ℕ × Bool
connect w attempt = (w + 1, leb 3 attempt)

abbrev policy : ReconnectPolicy whole
policy = record { schedule = doubling; max_attempts = 5 }

run_reconnect-IsRun_example :
    (waits : List ℕ) × (u : ℕ) × (r : ReconnectResult) × (run_reconnect whole connect policy 0
      ≡ some (waits, u, r))
    × IsRun whole connect policy 0 0 waits r
run_reconnect-IsRun_example = run_reconnect-IsRun whole connect policy 0

abbrev two_files : RotationPolicy
two_files = record { max_bytes = 10; max_age = 100; keep_files = 2 }

abbrev files : List RotatedFile
files =
    record { path = codes "a"; age = 30 }
    ∷ record { path = codes "b"; age = 10 }
    ∷ record { path = codes "c"; age = 20 }
    ∷ []

plan_retention-split_example :
    (sorted : List RotatedFile) × (n : ℕ) × Perm sorted files
    × IsSorted is_newer sorted
    × (plan_retention two_files files ≡ map (λ f. f.path) (drop n sorted))
    × (n ≤ 2)
    × All (IsYoung two_files) (take n sorted)
    × ((2 ≤ n) ⊎ All (λ f. 100 ≤ f.age) (drop n sorted))
plan_retention-split_example = plan_retention-split two_files files

oldest_test : plan_retention two_files files ≡ codes "a" ∷ []
unfolding plan_retention
oldest_test = refl

describe_test : describe_exit (exit_code (pos 137)) ≡ codes "process died on signal 9 (exit 137)"
unfolding describe_exit
describe_test = refl
