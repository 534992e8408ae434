-- ===== src/Browser/Overlay.antt =====
-- src-tauri/src/browser/overlay-manager.rs and overlay-recreate-state-transfer.rs: the entry of each
-- pane's overlay, over the windows. The commands of commands.rs are these operations.
use weftgrid.Base.{Bool, true, Option, none, some, List, [], ◌++◌, Bytes, bytes_discrete, ite}
use weftgrid.Base.Maps.{lookup, insert, remove}
use weftgrid.Base.Results.{Result, ok, err}
use weftgrid.Base.Text.{codes}
use weftgrid.Browser.Windows.{
  PaneId, OverlayCreateParams, PhysicalRect, Windows, Answer, Scroll, UrlParser, SpawnAnswers,
}
use weftgrid.Browser.Windows

pub record OverlayEntry : Type 0 where
  pub label : Bytes
  pub params : OverlayCreateParams
  pub current_url : Option Bytes
  pub visible : Bool

-- The manager with the windows that its spawner works on.
pub record OverlayManager : Type 0 where
  pub overlays : List (PaneId × OverlayEntry)
  pub windows : Windows

abbrev pub empty_manager : OverlayManager
empty_manager = record { overlays = []; windows = [] }

abbrev pub entry : OverlayManager → PaneId → Option OverlayEntry
entry m pane = lookup bytes_discrete pane m.overlays

abbrev pub no_overlay : PaneId → Bytes
no_overlay pane = codes "no overlay for pane " ++ pane

abbrev pub entry_of : OverlayCreateParams → Option Bytes → Bytes → OverlayEntry
entry_of params url label = record {
  label = label;
  params = params;
  current_url = url;
  visible = true;
}

-- The pane's entry is made of the label, once the window is there.
unfoldable pub created :
    OverlayManager
    → OverlayCreateParams
    → Option Bytes
    → Windows × Result Bytes Bytes
    → OverlayManager × Result Bytes Bytes
created m params url (ws, err e) = (record m { windows = ws }, err e)
created m params url (ws, ok label) = (
  record m {
    windows = ws;
    overlays = insert bytes_discrete params.pane_id (entry_of params url label) m.overlays;
  },
  ok label,
)

-- The outcome of an operation on the windows, and how the pane's entry changes if it succeeded.
unfoldable pub noted :
    OverlayManager → PaneId → OverlayEntry → Windows × Answer → OverlayManager × Answer
noted m pane e (ws, err text) = (record m { windows = ws }, err text)
noted m pane e (ws, ok _) =
    (record m { windows = ws; overlays = insert bytes_discrete pane e m.overlays }, ok tt)

abbrev pub passed_on : OverlayManager → Windows × Answer → OverlayManager × Answer
passed_on m (ws, answer) = (record m { windows = ws }, answer)

unfoldable pub set_visible_of :
    OverlayManager → PaneId → Bool → Answer → Option OverlayEntry → OverlayManager × Answer
unfolding noted Windows.set_visible
set_visible_of m pane visible a none = (m, err (no_overlay pane))
set_visible_of m pane visible a (some e) =
    noted m pane (record e { visible = visible }) (Windows.set_visible m.windows e.label visible a)

unfoldable pub set_visible : OverlayManager → PaneId → Bool → Answer → OverlayManager × Answer
unfolding set_visible_of
set_visible m pane visible a = set_visible_of m pane visible a (entry m pane)

unfoldable pub set_on_top_of :
    OverlayManager → PaneId → Bool → Answer → Option OverlayEntry → OverlayManager × Answer
unfolding Windows.set_on_top
set_on_top_of m pane on_top a none = (m, err (no_overlay pane))
set_on_top_of m pane on_top a (some e) = passed_on m (Windows.set_on_top m.windows e.label on_top a)

unfoldable pub set_on_top : OverlayManager → PaneId → Bool → Answer → OverlayManager × Answer
unfolding set_on_top_of
set_on_top m pane on_top a = set_on_top_of m pane on_top a (entry m pane)

unfoldable pub position_of :
    OverlayManager
    → PaneId
    → PhysicalRect
    → Answer
    → Answer
    → Option OverlayEntry
    → OverlayManager × Answer
unfolding Windows.set_bounds
position_of m pane rect a b none = (m, err (no_overlay pane))
position_of m pane rect a b (some e) = passed_on m (Windows.set_bounds m.windows e.label rect a b)

unfoldable pub position :
    OverlayManager → PaneId → PhysicalRect → Answer → Answer → OverlayManager × Answer
unfolding position_of
position m pane rect a b = position_of m pane rect a b (entry m pane)

-- `browser_sync_bounds`: `set_visible`, if `position` succeeded.
unfoldable pub shown_after :
    PaneId → Bool → Answer → OverlayManager × Answer → OverlayManager × Answer
unfolding set_visible
shown_after pane visible a (m, err e) = (m, err e)
shown_after pane visible a (m, ok _) = set_visible m pane visible a

unfoldable pub sync_bounds :
    OverlayManager
    → PaneId
    → PhysicalRect
    → Bool
    → Answer
    → Answer
    → Answer
    → OverlayManager × Answer
unfolding shown_after position
sync_bounds m pane rect visible a b c = shown_after pane visible c (position m pane rect a b)

-- The entry is gone, whatever the window does.
unfoldable pub destroy_of :
    OverlayManager → PaneId → Answer → Option OverlayEntry → OverlayManager × Answer
unfolding Windows.destroy
destroy_of m pane a none = (m, err (no_overlay pane))
destroy_of m pane a (some e) =
    passed_on (record m { overlays = remove bytes_discrete pane m.overlays })
      (Windows.destroy m.windows e.label a)

unfoldable pub destroy : OverlayManager → PaneId → Answer → OverlayManager × Answer
unfolding destroy_of
destroy m pane a = destroy_of m pane a (entry m pane)

unfoldable pub destroy_silent : OverlayManager → PaneId → OverlayManager
destroy_silent m pane = record m { overlays = remove bytes_discrete pane m.overlays }

-- What the new overlay takes over from the old one.
pub record RecreatePlan : Type 0 where
  pub old_label : Bytes
  pub new_params : OverlayCreateParams
  pub url : Option Bytes
  pub scroll : Option Scroll

unfoldable pub plan_of :
    PaneId → OverlayCreateParams → Option Scroll → Option OverlayEntry → Result RecreatePlan Bytes
plan_of pane params scroll none = err (codes "no overlay to recreate for pane " ++ pane)
plan_of pane params scroll (some e) =
    ite (bytes_discrete params.pane_id pane)
      (ok
        (record { old_label = e.label; new_params = params; url = e.current_url; scroll = scroll }))
      (err (codes "recreate params pane_id must match the target pane"))

unfoldable pub plan_recreate :
    OverlayManager → PaneId → OverlayCreateParams → Option Scroll → Result RecreatePlan Bytes
unfolding plan_of
plan_recreate m pane params scroll = plan_of pane params scroll (entry m pane)

-- The answers to one recreation.
pub record RecreateAnswers : Type 0 where
  pub destroyed : Answer
  pub spawned : SpawnAnswers
  pub raised : Answer

abbrev pub then_label : Bytes → Answer → Result Bytes Bytes
then_label label (ok _) = ok label
then_label label (err e) = err e

unfoldable pub raise :
    OverlayManager → Bytes → Answer → Windows × Answer → OverlayManager × Result Bytes Bytes
unfolding Windows.set_on_top
raise m label a (ws, err e) = (record m { windows = ws }, err e)
raise m label a (ws, ok _) =
    let top = Windows.set_on_top ws label true a in
    (record m { windows = top.0 }, then_label label top.1)

abbrev pub scrolled : Windows → Bytes → Option Scroll → Windows × Answer
scrolled ws label none = (ws, ok tt)
scrolled ws label (some s) = Windows.restore_scroll ws label s

-- The rest of `execute_recreate`, after `create`.
unfoldable pub finish_recreate :
    RecreatePlan
    → RecreateAnswers
    → OverlayManager × Result Bytes Bytes
    → OverlayManager × Result Bytes Bytes
unfolding raise
finish_recreate plan a (m, err e) = (m, err e)
finish_recreate plan a (m, ok label) = raise m label a.raised (scrolled m.windows label plan.scroll)

module _ (urls : UrlParser) where
  unfoldable pub create_if_absent :
      OverlayManager
      → OverlayCreateParams
      → Option Bytes
      → SpawnAnswers
      → Option OverlayEntry
      → OverlayManager × Result Bytes Bytes
  unfolding created Windows.spawn
  create_if_absent m params url a (some _) =
      (m, err (codes "overlay already exists for pane " ++ params.pane_id))
  create_if_absent m params url a none =
      created m params url (Windows.spawn urls m.windows params url a)

  unfoldable pub create :
      OverlayManager
      → OverlayCreateParams
      → Option Bytes
      → SpawnAnswers
      → OverlayManager × Result Bytes Bytes
  unfolding create_if_absent
  create m params url a = create_if_absent m params url a (entry m params.pane_id)

  unfoldable pub navigate_of :
      OverlayManager → PaneId → Bytes → Answer → Option OverlayEntry → OverlayManager × Answer
  unfolding noted Windows.navigate
  navigate_of m pane url a none = (m, err (no_overlay pane))
  navigate_of m pane url a (some e) =
      noted m pane (record e { current_url = some url })
        (Windows.navigate urls m.windows e.label url a)

  unfoldable pub navigate : OverlayManager → PaneId → Bytes → Answer → OverlayManager × Answer
  unfolding navigate_of
  navigate m pane url a = navigate_of m pane url a (entry m pane)

  -- The rest of `execute_recreate`, after the old window is asked to go.
  unfoldable pub replace :
      OverlayManager
      → RecreatePlan
      → RecreateAnswers
      → Windows × Answer
      → OverlayManager × Result Bytes Bytes
  unfolding finish_recreate create destroy_silent
  replace m plan a (ws, err e) = (record m { windows = ws }, err e)
  replace m plan a (ws, ok _) = finish_recreate plan a (
      create (destroy_silent (record m { windows = ws }) plan.new_params.pane_id) plan.new_params
        plan.url a.spawned)

  unfoldable pub execute_recreate :
      OverlayManager → RecreatePlan → RecreateAnswers → OverlayManager × Result Bytes Bytes
  unfolding replace Windows.destroy
  execute_recreate m plan a =
      replace m plan a (Windows.destroy m.windows plan.old_label a.destroyed)

  unfoldable pub recreate_planned :
      OverlayManager
      → RecreateAnswers
      → Result RecreatePlan Bytes
      → OverlayManager × Result Bytes Bytes
  unfolding execute_recreate
  recreate_planned m a (err e) = (m, err e)
  recreate_planned m a (ok plan) = execute_recreate m plan a

  -- `browser_recreate`
  unfoldable pub recreate :
      OverlayManager
      → PaneId
      → OverlayCreateParams
      → Option Scroll
      → RecreateAnswers
      → OverlayManager × Result Bytes Bytes
  unfolding recreate_planned plan_recreate
  recreate m pane params scroll a = recreate_planned m a (plan_recreate m pane params scroll)
