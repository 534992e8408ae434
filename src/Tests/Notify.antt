-- ===== src/Tests/Notify.antt =====
-- Tests of the notification track.
use weftgrid.Base.{
  ℕ, ◌+◌, ◌≡◌, ◌≢◌, ◌⊎◌, inl, inr, refl, true, false, none, some, [], ◌∷◌, ◌++◌, List, Bytes,
  length, arith, count_if,
}
use weftgrid.Base.Maps.{keys, values}
use weftgrid.Base.Text.{codes}
use weftgrid.Notify.Scanner.{OscScanner, RawOsc, push, bel, esc, max_pending}
use weftgrid.Notify.Scanner
use weftgrid.Notify.Scanner.Chunks.{push_batches, joined, push_batches-joined}
use weftgrid.Notify.Scanner.Bounds.{IsBounded, new-IsBounded, push-IsBounded}
use weftgrid.Notify.Osc.{body_only, parse_notification, build_osc777}
use weftgrid.Notify.Osc.RoundTrip.{IsPayload, payload777, push-build_osc777}
use weftgrid.Notify.Manager
use weftgrid.Notify.Manager.{
  Manager, latest, snapshot, unread_count, has_ring, newer_first, record_parsed,
}
use weftgrid.Notify.Manager.Invariant.{
  Call, records, marks_read, clears, call, calls, IsWellFormed, new-IsWellFormed,
  calls-IsWellFormed,
}
use weftgrid.Notify.Manager.Refinement.{spec, latest-call}
use weftgrid.Notify.Ingest.{NotifyState, ingest_bytes, ingest_bytes-append}

abbrev three_batches : List Bytes
three_batches = (esc ∷ b']' ∷ []) ∷ codes "9;build" ∷ (codes " done" ++ bel ∷ []) ∷ []

push_batches-joined_example :
    push_batches Scanner.new three_batches ≡ push Scanner.new (joined three_batches)
push_batches-joined_example = push_batches-joined Scanner.new three_batches

push-IsBounded_example : IsBounded (push Scanner.new (esc ∷ b']' ∷ b'9' ∷ [])).0
push-IsBounded_example = push-IsBounded Scanner.new (esc ∷ b']' ∷ b'9' ∷ []) new-IsBounded

abbrev stuck : OscScanner
stuck = (push Scanner.new (esc ∷ b']' ∷ b'9' ∷ [])).0

hi-IsPayload : IsPayload (codes "hi")
unfolding weftgrid.Base.Text.is_utf8
hi-IsPayload = record {
  utf8 = refl;
  clean = (
    ((λ e. absurd (omega (arith, e))), (λ e. absurd (omega (arith, e)))),
    (((λ e. absurd (omega (arith, e))), (λ e. absurd (omega (arith, e)))), tt),
  );
}

push-build_osc777_example :
    (push Scanner.new (build_osc777 (codes "hi") (codes "hi"))
      ≡ (Scanner.new, record { code = 777; payload = payload777 (codes "hi") (codes "hi") } ∷ []))
    × (parse_notification (record { code = 777; payload = payload777 (codes "hi") (codes "hi") })
        ≡ some (record { title = codes "hi"; subtitle = []; body = codes "hi" }))
push-build_osc777_example =
    push-build_osc777 (codes "hi") (codes "hi") hi-IsPayload hi-IsPayload
      ((λ e. absurd (omega (arith, e))), ((λ e. absurd (omega (arith, e))), tt)) (inl (λ e. cc))
      (omega arith)

abbrev some_calls : List Call
some_calls =
    records (codes "p") 1 (body_only (codes "x"))
    ∷ records (codes "q") 2 (body_only (codes "y"))
    ∷ marks_read (codes "p")
    ∷ []

calls-IsWellFormed_example : IsWellFormed (calls Manager.new some_calls)
calls-IsWellFormed_example =
    calls-IsWellFormed Manager.new some_calls (omega arith) new-IsWellFormed

one_unread_test : unread_count (calls Manager.new some_calls) ≡ 1
unfolding unread_count calls call Manager.mark_read weftgrid.Base.Maps.lookup record_parsed
    weftgrid.Base.Maps.insert weftgrid.Base.bytes_discrete weftgrid.Base.ℕ_discrete
one_unread_test = refl

latest-call_example :
    latest (call Manager.new (clears (codes "p"))) (codes "p")
    ≡ spec (latest Manager.new) 0 (clears (codes "p")) (codes "p")
latest-call_example = latest-call Manager.new (clears (codes "p")) (codes "p")

abbrev fresh : ℕ → ℕ
fresh seq = seq + 100

abbrev idle_state : NotifyState
idle_state = record { manager = Manager.new; scanners = [] }

ingest_bytes-append_example :
    let first = ingest_bytes fresh idle_state (codes "p") (esc ∷ b']' ∷ []) in
    let second = ingest_bytes fresh first.state (codes "p") (codes "9;hi" ++ bel ∷ []) in
    let whole =
      ingest_bytes fresh idle_state (codes "p") ((esc ∷ b']' ∷ []) ++ (codes "9;hi" ++ bel ∷ [])) in
    (whole.state ≡ second.state) × (whole.recorded ≡ first.recorded ++ second.recorded)
ingest_bytes-append_example =
    ingest_bytes-append fresh idle_state (codes "p") (esc ∷ b']' ∷ []) (codes "9;hi" ++ bel ∷ [])
