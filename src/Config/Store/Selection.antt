-- ===== src/Config/Store/Selection.antt =====
-- The selection of the workspace list, through every operation.
use weftgrid.Base.{
  ℕ, zero, suc, ◌+◌, ◌<◌, ◌≡◌, refl, ap, subst, ◌∙◌, inl, inr, ◌||◌, Option, none, some, List, [],
  ◌∷◌, bytes_discrete, arith, if_pos, if_neg, leb, ltb, ◌==◌, Bytes, length, get_elem?,
  length-append, Bool-cases, Option-cases,
}
use weftgrid.Base.Positions.{remove_at, length-remove_at, length-insert_at}
use weftgrid.Config.Store.{
  Workspace, WorkspaceStore, add, position, reselect_after_remove, remove_pos, remove, move_at,
  follow, reorder, select, regroup, next, put_at, set_group,
}

-- The selection is within the list.
abbrev pub IsWithin : ℕ → Option ℕ → Type 0
IsWithin n none = Unit {0}
IsWithin n (some i) = i < n

abbrev pub IsValid : WorkspaceStore → Type 0
IsValid store = IsWithin (length store.workspaces) store.selected_index

-- A call of the module.
pub data Call : Type 0 where
  adds : Workspace → Call
  removes selects : Bytes → Call
  reorders : ℕ → ℕ → Call
  sets_group : Bytes → Option Bytes → Call

unfoldable pub call : WorkspaceStore → Call → WorkspaceStore
unfolding add remove reorder select set_group
call store (adds w) = (add store w).0
call store (removes i) = (remove store i).0
call store (selects i) = (select store i).0
call store (reorders from to) = (reorder store from to).0
call store (sets_group i g) = (set_group store i g).0

unfoldable pub calls : WorkspaceStore → List Call → WorkspaceStore
unfolding call
calls store [] = store
calls store (c ∷ cs) = calls (call store c) cs

next-IsWithin : (n : ℕ) (o : Option ℕ) → IsWithin n o → IsWithin (suc n) (next o)
next-IsWithin n none h = tt
next-IsWithin n (some k) h = omega (arith, h)

position-IsWithin : (i : Bytes) (ws : List Workspace) → IsWithin (length ws) (position i ws)
unfolding position
position-IsWithin i [] = tt
position-IsWithin i (w ∷ ws) = elim (bytes_discrete w.id i) [
  | yes e ↦ rw (if_pos (bytes_discrete w.id i) e) (omega arith)
  | no e ↦
      rw (if_neg (bytes_discrete w.id i) e)
        (next-IsWithin (length ws) (position i ws) (position-IsWithin i ws))
]

reselect-IsWithin :
    (n : ℕ) (sel : Option ℕ) (pos : ℕ)
    → IsWithin (n + 1) sel
    → pos < n + 1
    → IsWithin n (reselect_after_remove n sel pos)
unfolding reselect_after_remove
reselect-IsWithin zero sel pos h k = tt
reselect-IsWithin (suc n) none pos h k = tt
reselect-IsWithin (suc n) (some i) pos h k = elim (Bool-cases (i == pos)) [
  | inl e ↦ rw e (omega arith)
  | inr e ↦ elim (Bool-cases (ltb pos i)) [
    | inl l ↦ rw (e, l) (ground (arith, l, h))
    | inr l ↦ rw (e, l) (ground (arith, l, e, h, k))
  ]
]

pub get_elem?-some :
    {A : Type 0} (ws : List A) (n : ℕ) → n < length ws → (w : A) × (get_elem? ws n ≡ some w)
get_elem?-some [] n h = ground (arith, h)
get_elem?-some (w ∷ ws) zero h = (w, refl)
get_elem?-some (w ∷ ws) (suc n) h = get_elem?-some ws n (omega (arith, h))

length-move_at :
    (from to : ℕ) (ws : List Workspace) → from < length ws → length (move_at from to ws) ≡ length ws
unfolding move_at put_at
length-move_at from to ws h =
    let moved = get_elem?-some ws from h in
    rw (put_at, moved.1)
      (length-insert_at to moved.0 (remove_at from ws) ∙ length-remove_at from ws h)

follow-IsWithin :
    (n from to : ℕ) (sel : Option ℕ) → to < n → IsWithin n sel → IsWithin n (follow from to sel)
unfolding follow
follow-IsWithin n from to none h k = tt
follow-IsWithin n from to (some i) h k = elim (Bool-cases (i == from)) [
  | inl e ↦ rw e h
  | inr e ↦ rw e k
]

length-regroup :
    (i : Bytes) (g : Option Bytes) (ws : List Workspace) → length (regroup i g ws) ≡ length ws
unfolding regroup
length-regroup i g [] = refl
length-regroup i g (w ∷ ws) = elim (bytes_discrete w.id i) [
  | yes e ↦ rw (if_pos (bytes_discrete w.id i) e) refl
  | no e ↦ rw (if_neg (bytes_discrete w.id i) e) (ap suc (length-regroup i g ws))
]

remove_pos-IsValid :
    (store : WorkspaceStore) (pos : ℕ)
    → IsValid store
    → pos < length store.workspaces
    → IsValid (remove_pos store pos).0
unfolding remove_pos
remove_pos-IsValid store pos h k =
    let n = length-remove_at pos store.workspaces k in
    reselect-IsWithin (length (remove_at pos store.workspaces)) store.selected_index pos (rw n h)
      (rw n k)

reorder-IsValid :
    (store : WorkspaceStore) (from to : ℕ) → IsValid store → IsValid (reorder store from to).0
unfolding reorder
reorder-IsValid store from to h =
    elim (Bool-cases
      (leb (length store.workspaces) from || leb (length store.workspaces) to || from == to)) [
        | inl e ↦ rw e h
        | inr e ↦
            rw (e, length-move_at from to store.workspaces (ground (arith, e)))
              (follow-IsWithin (length store.workspaces) from to store.selected_index
                (ground (arith, e)) h)
      ]

call-IsValid : (store : WorkspaceStore) (c : Call) → IsValid store → IsValid (call store c)
unfolding call add remove select set_group
call-IsValid store (adds w) h = ground (arith, length-append store.workspaces (w ∷ []))
call-IsValid store (removes i) h = elim (Option-cases (position i store.workspaces)) [
  | inl e ↦ rw (call, remove, e) h
  | inr (pos, e) ↦
      rw (call, remove, e)
        (remove_pos-IsValid store pos h
          (subst (IsWithin _) e (position-IsWithin i store.workspaces)))
]
call-IsValid store (selects i) h = elim (Option-cases (position i store.workspaces)) [
  | inl e ↦ rw (call, select, e) h
  | inr (pos, e) ↦
      rw (call, select, e) (subst (IsWithin _) e (position-IsWithin i store.workspaces))
]
call-IsValid store (reorders from to) h = reorder-IsValid store from to h
call-IsValid store (sets_group i g) h = elim (Option-cases (position i store.workspaces)) [
  | inl e ↦ rw (call, set_group, e) h
  | inr (pos, e) ↦ rw (call, set_group, e, length-regroup i g store.workspaces) h
]

-- From a store whose selection is empty or an index of its list, any calls lead to one whose
-- selection is empty or an index of its list.
pub store_calls-IsValid :
    (store : WorkspaceStore) (cs : List Call) → IsValid store → IsValid (calls store cs)
unfolding calls
store_calls-IsValid store [] h = h
store_calls-IsValid store (c ∷ cs) h =
    store_calls-IsValid (call store c) cs (call-IsValid store c h)
