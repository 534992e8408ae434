-- ===== src/Sidebar.antt =====
-- The sidebar track (src-tauri/src/sidebar): state.rs, mod.rs and report_receiver.rs, what a pushed
-- report changes. A progress fraction is of a type `F`.
pub mod Tail
pub mod Ports
use weftgrid.Base.{
  ℕ, zero, suc, ◌-◌, Bool, true, false, Option, none, some, List, [], ◌∷◌, ◌++◌, ltb, if◌then◌else◌,
  Bytes, bytes_discrete, ite, length, drop,
}
use weftgrid.Base.Maps.{lookup, insert, remove}
use mathlib.Core.Option
use weftgrid.Config.Store.{Workspace, WorkspaceStore, position}

abbrev pub log_tail_max : ℕ
log_tail_max = 100

pub data MetadataReport (F : Type 0) : Type 0 where
  git_branch pull_request : Bytes → MetadataReport F
  ports : List ℕ → MetadataReport F
  status : Bytes → MetadataReport F
  progress : F → MetadataReport F
  log : Bytes → MetadataReport F

pub data ReportOutcome : Type 0 where
  stored stored_transient unstored : ReportOutcome

pub record TransientMeta (F : Type 0) : Type 0 where
  pub status : Option Bytes
  pub progress : Option F
  pub log_tail : List Bytes

pub record SidebarState (F : Type 0) : Type 0 where
  pub transient : List (Bytes × TransientMeta F)
  pub scan_ports : Bool
  pub watch_git_status : Bool

abbrev pub default_state : (F : Type 0) → SidebarState F
default_state F = record { transient = []; scan_ports = false; watch_git_status = false }

unfoldable pub push_line : List Bytes → Bytes → List Bytes
push_line tail line =
    let t = tail ++ line ∷ [] in
    if ltb log_tail_max (length t) then drop (length t - log_tail_max) t else t

module _ {F : Type 0} where
  -- `entry(panel_id).or_default()`
  unfoldable pub entry_of : SidebarState F → Bytes → TransientMeta F
  unfolding lookup
  entry_of st panel =
      Option.get_or (lookup bytes_discrete panel st.transient)
        (record { status = none; progress = none; log_tail = [] })

  unfoldable pub put_entry : SidebarState F → Bytes → TransientMeta F → SidebarState F
  unfolding insert
  put_entry st panel e = record st { transient = insert bytes_discrete panel e st.transient }

  unfoldable pub record_transient : SidebarState F → Bytes → MetadataReport F → SidebarState F
  unfolding entry_of put_entry push_line
  record_transient st panel (status s) =
      put_entry st panel (record (entry_of st panel) { status = some s })
  record_transient st panel (progress p) =
      put_entry st panel (record (entry_of st panel) { progress = some p })
  record_transient st panel (log line) =
      put_entry st panel
        (record (entry_of st panel) { log_tail = push_line (entry_of st panel).log_tail line })
  record_transient st panel (git_branch _) = st
  record_transient st panel (pull_request _) = st
  record_transient st panel (ports _) = st

  abbrev pub transient_for : SidebarState F → Bytes → Option (TransientMeta F)
  transient_for st panel = lookup bytes_discrete panel st.transient

  unfoldable pub forget_panel : SidebarState F → Bytes → SidebarState F
  unfolding remove
  forget_panel st panel = record st { transient = remove bytes_discrete panel st.transient }

  abbrev pub set_port_scan : SidebarState F → Bool → SidebarState F
  set_port_scan st enabled = record st { scan_ports = enabled }

  abbrev pub set_git_watch : SidebarState F → Bool → SidebarState F
  set_git_watch st enabled = record st { watch_git_status = enabled }

  unfoldable pub apply_report : Workspace → Bytes → MetadataReport F → Workspace × ReportOutcome
  unfolding insert
  apply_report w panel (git_branch b) =
      (record w { panel_git_branches = insert bytes_discrete panel b w.panel_git_branches }, stored)
  apply_report w panel (pull_request pr) = (
    record w { panel_pull_requests = insert bytes_discrete panel pr w.panel_pull_requests },
    stored,
  )
  apply_report w panel (ports ps) = (
    record w { panel_listening_ports = insert bytes_discrete panel ps w.panel_listening_ports },
    stored,
  )
  apply_report w panel (status _) = (w, unstored)
  apply_report w panel (progress _) = (w, unstored)
  apply_report w panel (log _) = (w, unstored)

  -- The first workspace with the id, after the report; `none` if there is no such workspace.
  unfoldable pub apply_first :
      Bytes → Bytes → MetadataReport F → List Workspace → Option (List Workspace × ReportOutcome)
  unfolding apply_report
  apply_first i panel r [] = none
  apply_first i panel r (w ∷ ws) =
      let rest = apply_first i panel r ws in
      let now = apply_report w panel r in
      ite (bytes_discrete w.id i) (some (now.0 ∷ ws, now.1)) (Option.map (λ p. (w ∷ p.0, p.1)) rest)

  -- What is left to do once the report was applied.
  unfoldable pub route :
      SidebarState F → Bytes → MetadataReport F → ReportOutcome → SidebarState F × ReportOutcome
  unfolding record_transient
  route st panel r stored = (st, stored)
  route st panel r unstored = (record_transient st panel r, stored_transient)
  route st panel r stored_transient = (record_transient st panel r, stored_transient)

  unfoldable pub receive_report :
      WorkspaceStore
      → SidebarState F
      → Bytes
      → Bytes
      → MetadataReport F
      → WorkspaceStore × SidebarState F × ReportOutcome
  unfolding apply_first route
  receive_report store st workspace panel r =
      elim (apply_first workspace panel r store.workspaces) [
        | none ↦ (store, st, unstored)
        | some p ↦
            (record store { workspaces = p.0 }, (route st panel r p.1).0, (route st panel r p.1).1)
      ]
