-- ===== src/Notify/Ingest.antt =====
-- src-tauri/src/notify/mod.rs and commands.rs: a scanner for each pane in front of the store. The
-- ids that `Uuid::new_v4` draws are the function `new_id` of the arrival number.
use mathlib.Core.Option
use weftgrid.Base.{
  ℕ, Option, none, some, List, [], ◌∷◌, ◌++◌, Bytes, bytes_discrete, ◌≡◌, refl, append_assoc,
}
use weftgrid.Base.Maps.{lookup, insert, lookup-insert_self, insert-insert}
use weftgrid.Notify.Scanner.{OscScanner, RawOsc, push}
use weftgrid.Notify.Scanner
use weftgrid.Notify.Scanner.Chunks.{push-append}
use weftgrid.Notify.Osc.{ParsedNotification, parse_notification}
use weftgrid.Notify.Manager.{
  PaneKey, Notification, PaneRingState, Manager, record_parsed, ring_state,
}

pub record NotifyState : Type 0 where
  pub manager : Manager
  pub scanners : List (PaneKey × OscScanner)

-- `entry(pane).or_default()`
abbrev pub scanner_of : NotifyState → PaneKey → OscScanner
scanner_of st pane = Option.get_or (lookup bytes_discrete pane st.scanners) Scanner.new

unfoldable pub scan : NotifyState → PaneKey → Bytes → NotifyState × List RawOsc
scan st pane bytes =
    let (s, oscs) = push (scanner_of st pane) bytes in
    (record st { scanners = insert bytes_discrete pane s st.scanners }, oscs)

module _ (new_id : ℕ → ℕ) where
  -- `if let Some(parsed) = parse_notification(osc)`
  unfoldable pub record_one :
      Manager → PaneKey → Option ParsedNotification → Manager × List Notification
  record_one m pane none = (m, [])
  record_one m pane (some parsed) =
      let (m', n) = record_parsed m pane (new_id m.next_seq) parsed in (m', n ∷ [])

  -- The loop over `oscs`.
  unfoldable pub record_all : Manager → PaneKey → List RawOsc → Manager × List Notification
  unfolding record_one
  record_all m pane [] = (m, [])
  record_all m pane (osc ∷ oscs) =
      let first = record_one m pane (parse_notification osc) in
      let rest = record_all first.0 pane oscs in (rest.0, first.1 ++ rest.1)

  -- The event that `emit_changed` sends, if any.
  abbrev pub changed_event : Manager → PaneKey → List Notification → Option PaneRingState
  changed_event m pane [] = none
  changed_event m pane (_ ∷ _) = some (ring_state m pane)

  pub record Ingested : Type 0 where
    pub state : NotifyState
    pub recorded : List Notification
    pub event : Option PaneRingState

  -- `notify_ingest_bytes`
  unfoldable pub ingest_bytes : NotifyState → PaneKey → Bytes → Ingested
  unfolding scan
  ingest_bytes st pane bytes =
      let scanned = scan st pane bytes in
      let stored = record_all st.manager pane scanned.1 in
      record {
        state = record (scanned.0) { manager = stored.0 };
        recorded = stored.1;
        event = changed_event stored.0 pane stored.1;
      }

  record_all-append :
      (m : Manager) (pane : PaneKey) (a b : List RawOsc)
      → record_all m pane (a ++ b) ≡ (
        (record_all (record_all m pane a).0 pane b).0,
        (record_all m pane a).1 ++ (record_all (record_all m pane a).0 pane b).1,
      )
  unfolding record_all
  record_all-append m pane [] b = refl
  record_all-append m pane (osc ∷ a) b =
      rw (record_all-append (record_one m pane (parse_notification osc)).0 pane a b, append_assoc)

  -- Two batches of a pane's stream leave the state, and record the notifications, that the one
  -- batch would.
  pub ingest_bytes-append :
      (st : NotifyState) (pane : PaneKey) (a b : Bytes)
      → let first = ingest_bytes st pane a in
        let second = ingest_bytes first.state pane b in
        let whole = ingest_bytes st pane (a ++ b) in
        (whole.state ≡ second.state) × (whole.recorded ≡ first.recorded ++ second.recorded)
  unfolding ingest_bytes
  ingest_bytes-append st pane a b =
      let s = scanner_of st pane in
      let kept = lookup-insert_self bytes_discrete pane (push s a).0 st.scanners in
      let both = push-append s a b in
      let stored = record_all-append st.manager pane (push s a).1 (push (push s a).0 b).1 in
      (rw (kept, both, stored, insert-insert), rw (ingest_bytes, kept, both, stored))
