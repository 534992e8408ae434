-- ===== src/Config/Keybindings/Conflicts.antt =====
-- src-tauri/src/config/keybindings.rs: without conflicts, a chord and its action name each other.
use weftgrid.Base.{
  ◌≡◌, refl, sym, ap, ◌∙◌, Option, none, some, List, [], ◌∷◌, ◌++◌, map, Bytes, append-nil,
  append_assoc, bytes_discrete, ite, if_pos, if_neg, arith,
}
use weftgrid.Base.Maps.{lookup, lookup-insert}
use weftgrid.Config.Keybindings.{
  KeybindingRegistry, place_entry, push_over, push_action, by_chord, pairs_of, conflicts_in,
  detect_conflicts, normalize_chord, resolve, first_bound, action_for_chord,
}

abbrev Groups : Type 0
Groups = List (Bytes × List Bytes)

-- The actions of a chord, none where it has no entry.
unfoldable actions_at : Option (List Bytes) → List Bytes
actions_at none = []
actions_at (some actions) = actions

unfoldable sharing : Bytes → List (Bytes × Bytes) → List Bytes
sharing c [] = []
sharing c ((action, chord) ∷ bs) =
    ite (bytes_discrete chord c) (action ∷ sharing c bs) (sharing c bs)

lookup-place_entry :
    (k j : Bytes) (v : List Bytes) (m : Groups)
    → lookup bytes_discrete k m ≡ none
    → lookup bytes_discrete j (place_entry k v m)
      ≡ ite (bytes_discrete k j) (some v) (lookup bytes_discrete j m)
unfolding lookup place_entry
lookup-place_entry k j v [] h = refl
lookup-place_entry k j v ((i, w) ∷ m) h = ground (arith, lookup-place_entry k j v m)

push_over-at :
    (d a c : Bytes) (by : Groups) (o : Option (List Bytes))
    → lookup bytes_discrete d by ≡ o
    → actions_at (lookup bytes_discrete c (push_over d a by o))
      ≡ actions_at (lookup bytes_discrete c by) ++ (ite (bytes_discrete d c) (a ∷ []) [])
unfolding push_over actions_at
push_over-at d a c by none e = elim (bytes_discrete d c) [
  | yes p ↦
      rw
        (
          lookup-place_entry d c (a ∷ []) by e,
          ap (λ x. lookup bytes_discrete x by) (sym p) ∙ e,
          if_pos (bytes_discrete d c) p (some (a ∷ [])) none,
          if_pos (bytes_discrete d c) p (a ∷ []) [],
        )
        refl
  | no n ↦
      rw
        (
          lookup-place_entry d c (a ∷ []) by e,
          if_neg (bytes_discrete d c) n (some (a ∷ [])) (lookup bytes_discrete c by),
          if_neg (bytes_discrete d c) n (a ∷ []) [],
          append-nil,
        )
        refl
]
push_over-at d a c by (some l) e = elim (bytes_discrete d c) [
  | yes p ↦
      rw
        (
          lookup-insert,
          ap (λ x. lookup bytes_discrete x by) (sym p) ∙ e,
          if_pos (bytes_discrete d c) p (some (l ++ (a ∷ []))) (some l),
          if_pos (bytes_discrete d c) p (a ∷ []) [],
        )
        refl
  | no n ↦
      rw
        (
          lookup-insert,
          if_neg (bytes_discrete d c) n (some (l ++ (a ∷ []))) (lookup bytes_discrete c by),
          if_neg (bytes_discrete d c) n (a ∷ []) [],
          append-nil,
        )
        refl
]

by_chord-at :
    (c : Bytes) (acc : Groups) (bs : List (Bytes × Bytes))
    → actions_at (lookup bytes_discrete c (by_chord acc bs))
      ≡ actions_at (lookup bytes_discrete c acc) ++ sharing c bs
unfolding by_chord sharing push_action
by_chord-at c acc [] = sym (append-nil _)
by_chord-at c acc ((a, d) ∷ bs) =
    by_chord-at c (push_action d a acc) bs
    ∙ ap (λ l. l ++ sharing c bs) (push_over-at d a c acc (lookup bytes_discrete d acc) refl)
    ∙ (elim (bytes_discrete d c) [
      | yes q ↦
          rw
            (
              if_pos (bytes_discrete d c) q (a ∷ []) [],
              if_pos (bytes_discrete d c) q (a ∷ sharing c bs) (sharing c bs),
              append_assoc,
            )
            refl
      | no n ↦
          rw
            (
              if_neg (bytes_discrete d c) n (a ∷ []) [],
              if_neg (bytes_discrete d c) n (a ∷ sharing c bs) (sharing c bs),
              append-nil,
            )
            refl
    ])

sharing-found :
    (a c : Bytes) (bs : List (Bytes × Bytes))
    → lookup bytes_discrete a bs ≡ some c
    → ¬ (sharing c bs ≡ [])
unfolding sharing lookup
sharing-found a c [] h e = cc
sharing-found a c ((i, d) ∷ bs) h e = ground (arith, sharing-found a c bs)

append-empty : {A : Type 0} → (xs ys : List A) → xs ++ ys ≡ [] → (xs ≡ []) × (ys ≡ [])
append-empty [] ys e = (refl, e)
append-empty (x ∷ xs) ys e = cc

map-empty : {A B : Type 0} → (f : A → B) (xs : List A) → map f xs ≡ [] → xs ≡ []
map-empty f [] e = refl
map-empty f (x ∷ xs) e = cc

pairs_of-alone : (c a : Bytes) (rest : List Bytes) → pairs_of c (a ∷ rest) ≡ [] → rest ≡ []
unfolding pairs_of
pairs_of-alone c a rest e = map-empty _ rest (append-empty _ _ e).0

conflicts_in-at :
    (c : Bytes) (g : Groups)
    → conflicts_in g ≡ []
    → pairs_of c (actions_at (lookup bytes_discrete c g)) ≡ []
unfolding conflicts_in actions_at lookup pairs_of
conflicts_in-at c [] h = refl
conflicts_in-at c ((d, l) ∷ g) h = elim (bytes_discrete d c) [
  | yes e ↦
      rw (if_pos (bytes_discrete d c) e (some l) (lookup bytes_discrete c g))
        (ap (λ x. pairs_of x l) (sym e) ∙ (append-empty (pairs_of d l) (conflicts_in g) h).0)
  | no n ↦
      rw (if_neg (bytes_discrete d c) n)
        (conflicts_in-at c g (append-empty (pairs_of d l) (conflicts_in g) h).1)
]

first_bound-found :
    (a c : Bytes) (bs : List (Bytes × Bytes))
    → lookup bytes_discrete a bs ≡ some c
    → pairs_of c (sharing c bs) ≡ []
    → first_bound c bs ≡ some a
unfolding sharing lookup pairs_of first_bound
first_bound-found a c [] h e = cc
first_bound-found a c ((i, d) ∷ bs) h e = elim (bytes_discrete i a) [
  | yes p ↦ ground arith
  | no n ↦ elim (bytes_discrete d c) [
    | yes q ↦ absurd (
        sharing-found a c bs (ground arith) (
          pairs_of-alone c i (sharing c bs) (
            ap (pairs_of c) (sym (if_pos (bytes_discrete d c) q (i ∷ sharing c bs) (sharing c bs)))
            ∙ e)))
    | no m ↦ ground (arith, first_bound-found a c bs)
  ]
]

-- Without conflicts, the chord that an action is bound to triggers that action, however it is written:
-- it is enough that its normal form is the one that is bound.
pub action_for_chord-resolve :
    (trim to_lowercase : Bytes → Bytes) (r : KeybindingRegistry) (action chord : Bytes)
    → detect_conflicts r ≡ []
    → resolve r action ≡ some (normalize_chord trim to_lowercase chord)
    → action_for_chord trim to_lowercase r chord ≡ some action
unfolding detect_conflicts resolve action_for_chord sharing actions_at lookup
action_for_chord-resolve trim to_lowercase r action chord free e =
    let norm = normalize_chord trim to_lowercase chord in
    first_bound-found action norm r.bindings e (
      ap (pairs_of norm) (sym (by_chord-at norm [] r.bindings))
      ∙ conflicts_in-at norm (by_chord [] r.bindings) free)
