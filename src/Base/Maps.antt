-- ===== src/Base/Maps.antt =====
-- Hash maps as association lists: one entry for each key, in no order that a theorem relies on.
use mathlib.Core.Path.{◌≡◌, refl, subst}
use mathlib.Core.Logic.{ite, ◌≢◌, ◌⊎◌, inl, inr, if_pos, if_neg}
use mathlib.Core.List.{List, [], ◌∷◌, map}
use mathlib.Core.Option.{Option, none, some}
use native.Mathlib.Omega.{arith}
use weftgrid.Base.Lists.{All}

module _ {K V : Type 0} (dec : Discrete K) where
  -- `get`
  unfoldable pub lookup : K → List (K × V) → Option V
  lookup k [] = none
  lookup k ((j, v) ∷ m) = ite (dec j k) (some v) (lookup k m)

  -- `insert`
  unfoldable pub insert : K → V → List (K × V) → List (K × V)
  insert k v [] = (k, v) ∷ []
  insert k v ((j, w) ∷ m) = ite (dec j k) ((k, v) ∷ m) ((j, w) ∷ insert k v m)

  -- `remove`
  unfoldable pub remove : K → List (K × V) → List (K × V)
  remove k [] = []
  remove k ((j, w) ∷ m) = ite (dec j k) (remove k m) ((j, w) ∷ remove k m)

  pub lookup-insert :
      (k j : K) (v : V) (m : List (K × V))
      → lookup j (insert k v m) ≡ ite (dec k j) (some v) (lookup j m)
  unfolding lookup insert
  lookup-insert k j v [] = refl
  lookup-insert k j v ((i, w) ∷ m) = ground (arith, lookup-insert k j v m)

  pub lookup-insert_self : (k : K) (v : V) (m : List (K × V)) → lookup k (insert k v m) ≡ some v
  lookup-insert_self k v m = ground (arith, lookup-insert k k v m)

  -- A second write to a key replaces the first.
  pub insert-insert :
      (k : K) (v w : V) (m : List (K × V)) → insert k w (insert k v m) ≡ insert k w m
  unfolding insert
  insert-insert k v w [] = ground arith
  insert-insert k v w ((i, u) ∷ m) = ground (arith, insert-insert k v w m)

  pub lookup-remove :
      (k j : K) (m : List (K × V)) → lookup j (remove k m) ≡ ite (dec k j) none (lookup j m)
  unfolding lookup remove
  lookup-remove k j [] = ground arith
  lookup-remove k j ((i, w) ∷ m) = ground (arith, lookup-remove k j m)

module _ {K V : Type 0} (dec : Discrete K) where
  -- What is found after an insertion is the new value, or was there before.
  pub insert-found :
      (k j : K) (v w : V) (m : List (K × V))
      → lookup dec j (insert dec k v m) ≡ some w
      → ((k ≡ j) × (v ≡ w)) ⊎ ((k ≢ j) × (lookup dec j m ≡ some w))
  insert-found k j v w m h = elim (dec k j) [
    | yes e ↦ inl (e, ground (arith, lookup-insert dec k j v m))
    | no e ↦ inr (e, ground (arith, lookup-insert dec k j v m))
  ]

  -- What is found after a removal is of another key, and was there before.
  pub remove-found :
      (k j : K) (w : V) (m : List (K × V))
      → lookup dec j (remove dec k m) ≡ some w
      → (k ≢ j) × (lookup dec j m ≡ some w)
  remove-found k j w m h = elim (dec k j) [
    | yes e ↦ ground (arith, lookup-remove dec k j m)
    | no e ↦ (e, ground (arith, lookup-remove dec k j m))
  ]

abbrev pub values : {K V : Type 0} → List (K × V) → List V
values = map (λ e. e.1)

abbrev pub keys : {K V : Type 0} → List (K × V) → List K
keys = map (λ e. e.0)

-- The key is not in the map.
abbrev pub Absent : {K V : Type 0} → K → List (K × V) → Type 0
Absent k = All (λ e. e.0 ≢ k)

-- No key twice.
abbrev pub IsMap : {K V : Type 0} → List (K × V) → Type 0
IsMap [] = Unit {0}
IsMap ((k, _) ∷ m) = Absent k m × IsMap m

module _ {K V : Type 0} (dec : Discrete K) where
  pub insert-Absent :
      (j k : K) (v : V) (m : List (K × V)) → k ≢ j → Absent j m → Absent j (insert dec k v m)
  unfolding insert
  insert-Absent j k v [] h a = (h, tt)
  insert-Absent j k v ((i, w) ∷ m) h a = ground (arith, insert-Absent j k v m h a.1)

  pub insert-IsMap : (k : K) (v : V) (m : List (K × V)) → IsMap m → IsMap (insert dec k v m)
  unfolding insert
  insert-IsMap k v [] h = (tt, tt)
  insert-IsMap k v ((i, w) ∷ m) h = ground (arith, insert-IsMap k v m h.1, insert-Absent i k v m)

  pub remove-All :
      (P : K × V → Type 0) (k : K) (m : List (K × V)) → All P m → All P (remove dec k m)
  unfolding remove
  remove-All P k [] a = tt
  remove-All P k ((i, w) ∷ m) a = elim (dec i k) [
    | yes e ↦ rw (if_pos _ e) (remove-All P k m a.1)
    | no e ↦ rw (if_neg _ e) (a.0, remove-All P k m a.1)
  ]

  pub insert-All :
      (P : K × V → Type 0) (k : K) (v : V) (m : List (K × V))
      → P (k, v)
      → All P m
      → All P (insert dec k v m)
  unfolding insert
  insert-All P k v [] h a = (h, tt)
  insert-All P k v ((i, w) ∷ m) h a = elim (dec i k) [
    | yes e ↦ rw (if_pos _ e) (h, a.1)
    | no e ↦ rw (if_neg _ e) (a.0, insert-All P k v m h a.1)
  ]

  pub remove-IsMap : (k : K) (m : List (K × V)) → IsMap m → IsMap (remove dec k m)
  unfolding remove
  remove-IsMap k [] h = tt
  remove-IsMap k ((i, w) ∷ m) h = elim (dec i k) [
    | yes e ↦ rw (if_pos _ e) (remove-IsMap k m h.1)
    | no e ↦ rw (if_neg _ e) (remove-All (λ e. e.0 ≢ i) k m h.0, remove-IsMap k m h.1)
  ]

  pub lookup-Absent : (k : K) (m : List (K × V)) → Absent k m → lookup dec k m ≡ none
  unfolding lookup
  lookup-Absent k [] h = refl
  lookup-Absent k ((i, w) ∷ m) h = ground (arith, lookup-Absent k m h.1)

  -- What holds of every entry holds of the one that is found.
  pub lookup-All :
      (P : K × V → Type 0) (k : K) (v : V) (m : List (K × V))
      → All P m
      → lookup dec k m ≡ some v
      → P (k, v)
  unfolding lookup
  lookup-All P k v [] a e = cc
  lookup-All P k v ((i, w) ∷ m) a e = elim (dec i k) [
    | yes h ↦ subst (λ x. P x) (ground arith) a.0
    | no h ↦ lookup-All P k v m a.1 (ground arith)
  ]
