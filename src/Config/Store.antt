-- ===== src/Config/Store.antt =====
-- src-tauri/src/config/workspace_store.rs. A workspace has the fields that these operations read or
-- set (src-tauri/src/model/workspace.rs); its maps are association lists.
pub mod Selection
pub mod Shown
use weftgrid.Base.{
  ℕ, zero, suc, ◌+◌, ◌-◌, min, Bool, true, false, ◌||◌, Option, none, some, List, [], ◌∷◌, ◌++◌,
  map, bytes_discrete, ite, leb, ltb, ◌==◌, if◌then◌else◌, Bytes, length, get_elem?, count_if, set,
}
use weftgrid.Base.Sort.{sort_by}
use weftgrid.Base.{ℕ_discrete, map, ◌%◌, ◌^◌}
use weftgrid.Base.Maps.{lookup, values}
use weftgrid.Base.Positions.{remove_at, insert_at}

pub record Panel : Type 0 where
  pub has_unread_indicator : Bool
  pub is_manually_unread : Bool

pub record Workspace : Type 0 where
  pub id : Bytes
  pub title : Bytes
  pub custom_title : Option Bytes
  pub custom_description : Option Bytes
  pub is_pinned : Bool
  pub group_id : Option Bytes
  pub custom_color : Option Bytes
  pub current_directory : Bytes
  pub panels : List (Bytes × Panel)
  pub focused_panel_id : Option Bytes
  pub panel_git_branches : List (Bytes × Bytes)
  pub panel_pull_requests : List (Bytes × Bytes)
  pub panel_listening_ports : List (Bytes × List ℕ)

pub record WorkspaceStore : Type 0 where
  pub workspaces : List Workspace
  pub selected_index : Option ℕ

unfoldable pub add : WorkspaceStore → Workspace → WorkspaceStore × ℕ
add store w = (
  record store {
    workspaces = store.workspaces ++ w ∷ [];
    selected_index = some (length (store.workspaces ++ w ∷ []) - 1);
  },
  length (store.workspaces ++ w ∷ []) - 1,
)

abbrev pub next : Option ℕ → Option ℕ
next none = none
next (some n) = some (suc n)

-- The index of the first workspace with an id.
unfoldable pub position : Bytes → List Workspace → Option ℕ
position i [] = none
position i (w ∷ ws) = let rest = position i ws in ite (bytes_discrete w.id i) (some 0) (next rest)

unfoldable pub reselect_after_remove : ℕ → Option ℕ → ℕ → Option ℕ
reselect_after_remove zero selected removed_pos = none
reselect_after_remove (suc n) none removed_pos = none
reselect_after_remove (suc n) (some sel) removed_pos =
    if sel == removed_pos
    then some (min removed_pos (suc n - 1))
    else if ltb removed_pos sel
    then some (sel - 1)
    else some sel

unfoldable pub remove_pos : WorkspaceStore → ℕ → WorkspaceStore × Option Workspace
unfolding remove_at reselect_after_remove
remove_pos store pos = (
  record store {
    workspaces = remove_at pos store.workspaces;
    selected_index =
        reselect_after_remove (length (remove_at pos store.workspaces)) store.selected_index pos;
  },
  get_elem? store.workspaces pos,
)

unfoldable pub remove : WorkspaceStore → Bytes → WorkspaceStore × Option Workspace
unfolding position remove_pos
remove store i = elim (position i store.workspaces) [
  | some pos ↦ remove_pos store pos
  | none ↦ (store, none)
]

-- The moved workspace goes in; there is one.
unfoldable pub put_at : ℕ → Option Workspace → List Workspace → List Workspace
unfolding insert_at
put_at to none ws = ws
put_at to (some w) ws = insert_at to w ws

-- The moved workspace is the one at `from`, which is there.
unfoldable pub move_at : ℕ → ℕ → List Workspace → List Workspace
unfolding remove_at put_at
move_at from to ws = put_at to (get_elem? ws from) (remove_at from ws)

unfoldable pub follow : ℕ → ℕ → Option ℕ → Option ℕ
follow from to none = none
follow from to (some sel) = if sel == from then some to else some sel

unfoldable pub reorder : WorkspaceStore → ℕ → ℕ → WorkspaceStore × Bool
unfolding move_at follow
reorder store from to =
    if leb (length store.workspaces) from || leb (length store.workspaces) to || from == to
    then (store, false)
    else (
      record store {
        workspaces = move_at from to store.workspaces;
        selected_index = follow from to store.selected_index;
      },
      true,
    )

unfoldable pub select : WorkspaceStore → Bytes → WorkspaceStore × Bool
unfolding position
select store i = elim (position i store.workspaces) [
  | some idx ↦ (record store { selected_index = some idx }, true)
  | none ↦ (store, false)
]

-- The workspaces after the first with an id is put into a group.
unfoldable pub regroup : Bytes → Option Bytes → List Workspace → List Workspace
regroup i group [] = []
regroup i group (w ∷ ws) =
    let rest = regroup i group ws in
    ite (bytes_discrete w.id i) (record w { group_id = group } ∷ ws) (w ∷ rest)

unfoldable pub set_group : WorkspaceStore → Bytes → Option Bytes → WorkspaceStore × Bool
unfolding position regroup
set_group store i group = elim (position i store.workspaces) [
  | some _ ↦ (record store { workspaces = regroup i group store.workspaces }, true)
  | none ↦ (store, false)
]

abbrev is_unread : Panel → Bool
is_unread p = p.has_unread_indicator || p.is_manually_unread

unfoldable pub unread_count : Workspace → ℕ
unread_count w = count_if is_unread (values w.panels)

unfoldable pub git_branch_summary : Workspace → Option Bytes
unfolding lookup
git_branch_summary w = elim w.focused_panel_id [
  | some p ↦ lookup bytes_discrete p w.panel_git_branches
  | none ↦ none
]

-- The byte order of texts.
unfoldable pub text_le : Bytes → Bytes → Bool
text_le [] ys = true
text_le (x ∷ xs) [] = false
text_le (x ∷ xs) (y ∷ ys) = let rest = text_le xs ys in if x == y then rest else ltb x y

unfoldable pub flatten : List (List ℕ) → List ℕ
flatten [] = []
flatten (xs ∷ xss) = xs ++ flatten xss

-- `Vec::dedup`: an element that equals the one in front of it goes.
unfoldable pub dedup_onto : {A : Type 0} → Discrete A → A → List A → List A
dedup_onto eq x [] = []
dedup_onto eq x (y ∷ ys) = ite (eq x y) (dedup_onto eq x ys) (y ∷ dedup_onto eq y ys)

unfoldable pub dedup : {A : Type 0} → Discrete A → List A → List A
unfolding dedup_onto
dedup eq [] = []
dedup eq (x ∷ xs) = x ∷ dedup_onto eq x xs

pub record WorkspaceSnapshot : Type 0 where
  pub id : Bytes
  pub title : Bytes
  pub custom_description : Option Bytes
  pub is_pinned : Bool
  pub custom_color_hex : Option Bytes
  pub current_directory : Bytes
  pub unread_count : ℕ
  pub listening_ports : List ℕ
  pub git_branch_summary : Option Bytes
  pub pull_request_rows : List Bytes

-- The fields that have no producer here stay `None` in the source and are left out.
unfoldable pub snapshot_one : Workspace → WorkspaceSnapshot
unfolding unread_count git_branch_summary sort_by dedup flatten text_le
snapshot_one w = record {
  id = w.id;
  title = elim w.custom_title [ some t ↦ t | none ↦ w.title ];
  custom_description = w.custom_description;
  is_pinned = w.is_pinned;
  custom_color_hex = w.custom_color;
  current_directory = w.current_directory;
  unread_count = unread_count w % 2 ^ 32;
  listening_ports = dedup ℕ_discrete (sort_by leb (flatten (values w.panel_listening_ports)));
  git_branch_summary = git_branch_summary w;
  pull_request_rows = dedup bytes_discrete (sort_by text_le (values w.panel_pull_requests));
}

abbrev pub snapshot : WorkspaceStore → List WorkspaceSnapshot
snapshot store = map snapshot_one store.workspaces
