-- ===== src/Config/Keybindings.antt =====
-- src-tauri/src/config/keybindings.rs: the chords of the actions, and the conflicts between them.
use weftgrid.Base.{
  ◌≡◌, refl, Bool, true, false, not, Option, none, some, List, [], ◌∷◌, ◌++◌, map, Bytes, ℕ, suc,
  bytes_discrete, if◌then◌else◌, ite, ltb, leb, ◌==◌, length,
}
use weftgrid.Base.Maps.{lookup, remove, insert}
use weftgrid.Base.Sort.{sort_by}
use weftgrid.Base.Text.{codes, equal}
use weftgrid.Config.Store.{text_le}
pub mod Conflicts

pub record Conflict : Type 0 where
  pub chord : Bytes
  pub action_a : Bytes
  pub action_b : Bytes

-- `split('+')`: the pieces between the separators, at least one.
unfoldable pub join_first : ℕ → List Bytes → List Bytes
join_first c [] = (c ∷ []) ∷ []
join_first c (piece ∷ pieces) = (c ∷ piece) ∷ pieces

unfoldable pub split : Bytes → List Bytes
unfolding join_first
split [] = [] ∷ []
split (c ∷ cs) = if c == b'+' then [] ∷ split cs else join_first c (split cs)

-- `join("+")`
unfoldable pub join : List Bytes → Bytes
join [] = []
join (part ∷ []) = part
join (part ∷ next ∷ parts) = part ++ (b'+' ∷ join (next ∷ parts))

unfoldable pub is_one_of : List Bytes → Bytes → Bool
is_one_of [] tok = false
is_one_of (word ∷ words) tok = if equal word tok then true else is_one_of words tok

abbrev pub mods_order : List Bytes
mods_order = codes "ctrl" ∷ codes "alt" ∷ codes "shift" ∷ codes "meta" ∷ []

abbrev pub meta_words : List Bytes
meta_words = codes "cmd" ∷ codes "command" ∷ codes "super" ∷ codes "win" ∷ []

-- The other names of a modifier stand for it.
unfoldable pub fold_alias : Bytes → Bytes
unfolding is_one_of
fold_alias tok =
    if is_one_of meta_words tok
    then codes "meta"
    else if equal (codes "control") tok
    then codes "ctrl"
    else if equal (codes "option") tok
    then codes "alt"
    else tok

-- Where a modifier stands in the order of the modifiers.
unfoldable pub position_in : List Bytes → Bytes → ℕ
position_in [] m = 0
position_in (x ∷ xs) m = if equal x m then 0 else suc (position_in xs m)

abbrev pub mod_le : Bytes → Bytes → Bool
mod_le a b = leb (position_in mods_order a) (position_in mods_order b)

-- The modifiers and the keys that the loop over the pieces collects.
pub record ChordParts : Type 0 where
  pub mods : List Bytes
  pub keys : List Bytes

unfoldable pub push_token : ChordParts → Bytes → ChordParts
unfolding is_one_of
push_token p [] = p
push_token p (c ∷ cs) =
    let tok = fold_alias (c ∷ cs) in
    if is_one_of mods_order tok
    then (if is_one_of p.mods tok then p else record p { mods = p.mods ++ (tok ∷ []) })
    else record p { keys = p.keys ++ (tok ∷ []) }

module _ (trim to_lowercase : Bytes → Bytes) where
  unfoldable pub push_tokens : ChordParts → List Bytes → ChordParts
  unfolding push_token
  push_tokens p [] = p
  push_tokens p (raw ∷ raws) = push_tokens (push_token p (to_lowercase (trim raw))) raws

  unfoldable pub normalize_chord : Bytes → Bytes
  unfolding split join fold_alias push_tokens position_in
  normalize_chord chord =
      let parts = push_tokens (record { mods = []; keys = [] }) (split chord) in
      join (sort_by mod_le parts.mods ++ parts.keys)

-- The entry of a key that is not in a `BTreeMap` goes in front of the first greater key.
unfoldable pub place_entry : {V : Type 0} → Bytes → V → List (Bytes × V) → List (Bytes × V)
place_entry k v [] = (k, v) ∷ []
place_entry k v ((j, w) ∷ m) =
    if text_le k j then (k, v) ∷ (j, w) ∷ m else (j, w) ∷ place_entry k v m

unfoldable pub insert_over :
    {V : Type 0} → Bytes → V → List (Bytes × V) → Option V → List (Bytes × V)
insert_over k v m none = place_entry k v m
insert_over k v m (some _) = insert bytes_discrete k v m

unfoldable pub insert_ordered : {V : Type 0} → Bytes → V → List (Bytes × V) → List (Bytes × V)
unfolding place_entry insert_over
insert_ordered k v m = insert_over k v m (lookup bytes_discrete k m)

abbrev pub default_pairs : List (Bytes × Bytes)
default_pairs =
    (codes "palette.commands", codes "ctrl+shift+p")
    ∷ (codes "palette.switcher", codes "ctrl+p")
    ∷ (codes "surface.newTerminal", codes "ctrl+t")
    ∷ (codes "surface.close", codes "ctrl+w")
    ∷ (codes "split.right", codes "ctrl+shift+e")
    ∷ (codes "split.down", codes "ctrl+shift+o")
    ∷ (codes "focus.left", codes "ctrl+alt+left")
    ∷ (codes "focus.right", codes "ctrl+alt+right")
    ∷ (codes "focus.up", codes "ctrl+alt+up")
    ∷ (codes "focus.down", codes "ctrl+alt+down")
    ∷ (codes "find.open", codes "ctrl+f")
    ∷ (codes "find.next", codes "ctrl+g")
    ∷ (codes "find.previous", codes "ctrl+alt+g")
    ∷ (codes "app.openSettings", codes "ctrl+comma")
    ∷ []

pub record KeybindingRegistry : Type 0 where
  pub bindings : List (Bytes × Bytes)

-- A binding for a normalised chord; the empty one unbinds.
unfoldable pub bind : List (Bytes × Bytes) → Bytes → Bytes → List (Bytes × Bytes)
unfolding insert_ordered
bind bindings action [] = remove bytes_discrete action bindings
bind bindings action (c ∷ norm) = insert_ordered action (c ∷ norm) bindings

unfoldable pub resolve : KeybindingRegistry → Bytes → Option Bytes
resolve r action = lookup bytes_discrete action r.bindings

unfoldable pub first_bound : Bytes → List (Bytes × Bytes) → Option Bytes
first_bound norm [] = none
first_bound norm ((action, chord) ∷ bindings) =
    ite (bytes_discrete chord norm) (some action) (first_bound norm bindings)

module _ (trim to_lowercase : Bytes → Bytes) where
  unfoldable pub bound : List (Bytes × Bytes) → List (Bytes × Bytes) → List (Bytes × Bytes)
  unfolding normalize_chord
  bound [] acc = acc
  bound ((action, chord) ∷ pairs) acc =
      bound pairs (insert_ordered action (normalize_chord trim to_lowercase chord) acc)

  unfoldable pub default_bindings : List (Bytes × Bytes)
  default_bindings = bound default_pairs []

  unfoldable pub overlaid : List (Bytes × Bytes) → List (Bytes × Bytes) → List (Bytes × Bytes)
  unfolding bind
  overlaid bindings [] = bindings
  overlaid bindings ((action, chord) ∷ overrides) =
      overlaid (bind bindings action (normalize_chord trim to_lowercase chord)) overrides

  unfoldable pub with_overrides : List (Bytes × Bytes) → KeybindingRegistry
  unfolding default_bindings overlaid
  with_overrides overrides = record { bindings = overlaid default_bindings overrides }

  unfoldable pub set : KeybindingRegistry → Bytes → Bytes → KeybindingRegistry
  set r action chord = record {
    bindings = bind r.bindings action (normalize_chord trim to_lowercase chord);
  }

  unfoldable pub action_for_chord : KeybindingRegistry → Bytes → Option Bytes
  unfolding first_bound normalize_chord
  action_for_chord r chord = first_bound (normalize_chord trim to_lowercase chord) r.bindings

-- `by_chord.entry(chord).or_default().push(action)`, by what is there
unfoldable pub push_over :
    Bytes → Bytes → List (Bytes × List Bytes) → Option (List Bytes) → List (Bytes × List Bytes)
unfolding place_entry
push_over chord action by none = place_entry chord (action ∷ []) by
push_over chord action by (some actions) = insert bytes_discrete chord (actions ++ (action ∷ [])) by

unfoldable pub push_action : Bytes → Bytes → List (Bytes × List Bytes) → List (Bytes × List Bytes)
unfolding push_over
push_action chord action by = push_over chord action by (lookup bytes_discrete chord by)

unfoldable pub by_chord :
    List (Bytes × List Bytes) → List (Bytes × Bytes) → List (Bytes × List Bytes)
unfolding push_action
by_chord acc [] = acc
by_chord acc ((action, chord) ∷ bindings) = by_chord (push_action chord action acc) bindings

-- The pairs of actions of one chord.
unfoldable pub pairs_of : Bytes → List Bytes → List Conflict
pairs_of chord [] = []
pairs_of chord (a ∷ rest) =
    map (λ b. record { chord = chord; action_a = a; action_b = b }) rest ++ pairs_of chord rest

unfoldable pub conflicts_in : List (Bytes × List Bytes) → List Conflict
unfolding pairs_of
conflicts_in [] = []
conflicts_in ((chord, actions) ∷ groups) = pairs_of chord actions ++ conflicts_in groups

unfoldable pub detect_conflicts : KeybindingRegistry → List Conflict
unfolding by_chord conflicts_in
detect_conflicts r = conflicts_in (by_chord [] r.bindings)
