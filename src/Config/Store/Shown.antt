-- ===== src/Config/Store/Shown.antt =====
-- Which workspace is selected after the list of workspaces changed.
use weftgrid.Base.{
  ℕ, zero, suc, ◌-◌, ◌<◌, ◌≡◌, ◌≢◌, refl, sym, ap, ◌∙◌, ◌⊎◌, inl, inr, true, false, ◌||◌, Option,
  none, some, List, arith, leb, ltb, ◌==◌, length, get_elem?, Bool-cases,
}
use weftgrid.Base.Positions.{
  remove_at, length-remove_at, remove_at-before, remove_at-after, insert_at-before, insert_at_self,
  insert_at-after,
}
use weftgrid.Config.Store.{
  Workspace, WorkspaceStore, reselect_after_remove, remove_pos, put_at, move_at, follow, reorder,
}
use weftgrid.Config.Store.Selection.{get_elem?-some}

-- The workspace at a selection.
abbrev pub shown : Option ℕ → List Workspace → Option Workspace
shown none ws = none
shown (some i) ws = get_elem? ws i

reselect-shown :
    (n : ℕ) (ws : List Workspace) (i pos : ℕ)
    → length (remove_at pos ws) ≡ n
    → i < length ws
    → pos < length ws
    → i ≢ pos
    → shown (reselect_after_remove n (some i) pos) (remove_at pos ws) ≡ get_elem? ws i
unfolding reselect_after_remove
reselect-shown zero ws i pos e h k ne =
    absurd (ground (arith, length-remove_at pos ws k, e, h, k, ne))
reselect-shown (suc n) ws i pos e h k ne =
    let apart : i == pos ≡ false = ground (arith, ne) in
    elim (Bool-cases (ltb pos i)) [
      | inl l ↦
          let back : suc (i - 1) ≡ i = ground (arith, l) in
          rw (apart, l)
            (remove_at-after pos (i - 1) ws (ground (arith, l)) ∙ ap (get_elem? ws) back)
      | inr l ↦ rw (apart, l) (remove_at-before pos i ws (ground (arith, l, ne)))
    ]

-- Removing a workspace of the list other than the selected one keeps the selected one selected.
pub remove_pos-shown :
    (store : WorkspaceStore) (i pos : ℕ)
    → store.selected_index ≡ some i
    → i < length store.workspaces
    → pos < length store.workspaces
    → i ≢ pos
    → shown (remove_pos store pos).0.selected_index (remove_pos store pos).0.workspaces
      ≡ shown store.selected_index store.workspaces
unfolding remove_pos
remove_pos-shown store i pos e h k ne =
    rw e
      (reselect-shown (length (remove_at pos store.workspaces)) store.workspaces i pos refl h k ne)

-- What stands at an index of the list after a move.
move_at_self :
    (from to : ℕ) (ws : List Workspace)
    → from < length ws
    → to < length ws
    → get_elem? (move_at from to ws) to ≡ get_elem? ws from
unfolding move_at put_at
move_at_self from to ws h k =
    let moved = get_elem?-some ws from h in
    rw (put_at, moved.1)
      (insert_at_self to moved.0 (remove_at from ws) (omega (arith, length-remove_at from ws h, k)))

move_at-outside :
    (from to i : ℕ) (ws : List Workspace)
    → from < length ws
    → to < length ws
    → i < length ws
    → (i < from × i < to) ⊎ (from < i × to < i)
    → get_elem? (move_at from to ws) i ≡ get_elem? ws i
unfolding move_at put_at
move_at-outside from to i ws h k l (inl (a, b)) =
    let moved = get_elem?-some ws from h in
    rw (put_at, moved.1)
      (insert_at-before to i moved.0 (remove_at from ws) b
          (omega (arith, length-remove_at from ws h, h, a))
        ∙ remove_at-before from i ws a)
move_at-outside from to zero ws h k l (inr (a, b)) = ground (arith, a)
move_at-outside from to (suc i) ws h k l (inr (a, b)) =
    let moved = get_elem?-some ws from h in
    rw (put_at, moved.1)
      (insert_at-after to i moved.0 (remove_at from ws) (omega (arith, b))
        ∙ remove_at-after from i ws (omega (arith, a)))

move_at-between :
    (from to i : ℕ) (ws : List Workspace)
    → from < i
    → i < to
    → to < length ws
    → get_elem? (move_at from to ws) i ≡ get_elem? ws (suc i)
unfolding move_at put_at
move_at-between from to i ws a b k =
    let here : from < length ws = omega (arith, a, b, k) in
    let moved = get_elem?-some ws from here in
    rw (put_at, moved.1)
      (insert_at-before to i moved.0 (remove_at from ws) b
          (omega (arith, length-remove_at from ws here, b, k))
        ∙ remove_at-after from i ws (omega (arith, a)))

module _ (store : WorkspaceStore) (from to i : ℕ) where
  reorder-moves :
      from < length store.workspaces
      → to < length store.workspaces
      → from ≢ to
      → reorder store from to ≡ (
        record store {
          workspaces = move_at from to store.workspaces;
          selected_index = follow from to store.selected_index;
        },
        true,
      )
  unfolding reorder
  reorder-moves h k ne =
      let guard : leb (length store.workspaces) from
            || leb (length store.workspaces) to
            || from == to
          ≡ false =
        ground (arith, h, k, ne) in
      rw guard refl

  -- A move between two different positions of the list keeps the selected workspace selected if it
  -- is the one that moves, or if it stands in front of both positions or behind both.
  pub reorder-keeps :
      store.selected_index ≡ some i
      → from < length store.workspaces
      → to < length store.workspaces
      → i < length store.workspaces
      → from ≢ to
      → (i ≡ from) ⊎ ((i < from × i < to) ⊎ (from < i × to < i))
      → shown (reorder store from to).0.selected_index (reorder store from to).0.workspaces
        ≡ shown store.selected_index store.workspaces
  unfolding follow
  reorder-keeps e h k l ne (inl same) =
      let test : i == from ≡ true = ground (arith, same) in
      rw (reorder-moves h k ne, e, test)
        (move_at_self from to store.workspaces h k ∙ ap (get_elem? store.workspaces) (sym same))
  reorder-keeps e h k l ne (inr out) =
      let test : i == from ≡ false = ground (arith, out) in
      rw (reorder-moves h k ne, e, test) (move_at-outside from to i store.workspaces h k l out)

  -- A move over the selected workspace, from in front of it to behind it, leaves the index of the
  -- selection as it was, so that the next workspace is selected.
  pub reorder-shifts :
      store.selected_index ≡ some i
      → from < i
      → i < to
      → to < length store.workspaces
      → shown (reorder store from to).0.selected_index (reorder store from to).0.workspaces
        ≡ get_elem? store.workspaces (suc i)
  unfolding follow
  reorder-shifts e a b k =
      let test : i == from ≡ false = ground (arith, a) in
      rw (reorder-moves (omega (arith, a, b, k)) k (ground (arith, a, b)), e, test)
        (move_at-between from to i store.workspaces a b k)
