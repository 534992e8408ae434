-- ===== src/Base/Sort.antt =====
-- A stable sort, `sort_by_key` and its kin in the sources: an element goes in front of the first
-- one that it may stand before.
use mathlib.Core.Bool.{Bool, true, false}
use mathlib.Core.List.{List, [], ◌∷◌, Perm}
use mathlib.Core.List.Perm
use mathlib.Core.Path.{◌≡◌}
use weftgrid.Base.Tests.{if◌then◌else◌, Bool-cases}
use weftgrid.Base.Lists.{All}
use mathlib.Core.Logic.{inl, inr}

module _ {A : Type 0} (le : A → A → Bool) where
  unfoldable pub place : A → List A → List A
  place x [] = x ∷ []
  place x (y ∷ l) = if le x y then x ∷ y ∷ l else y ∷ place x l

  unfoldable pub sort_by : List A → List A
  unfolding place
  sort_by [] = []
  sort_by (x ∷ l) = place x (sort_by l)

  -- Each element may stand before all that follow it.
  abbrev pub IsSorted : List A → Type 0
  IsSorted [] = Unit {0}
  IsSorted (x ∷ l) = All (λ y. le x y ≡ true) l × IsSorted l

  place-perm : (x : A) (l : List A) → Perm (place x l) (x ∷ l)
  unfolding place
  place-perm x [] = Perm.refl (x ∷ [])
  place-perm x (y ∷ l) = elim (Bool-cases (le x y)) [
    | inl h ↦ rw h (Perm.refl (x ∷ y ∷ l))
    | inr h ↦ rw h (Perm.trans (Perm.cons y (place-perm x l)) (Perm.swap x y l))
  ]

  pub sort_by-perm : (l : List A) → Perm (sort_by l) l
  unfolding sort_by
  sort_by-perm [] = Perm.refl []
  sort_by-perm (x ∷ l) = Perm.trans (place-perm x (sort_by l)) (Perm.cons x (sort_by-perm l))

  place-All : (P : A → Type 0) (x : A) (l : List A) → P x → All P l → All P (place x l)
  unfolding place
  place-All P x [] h k = (h, tt)
  place-All P x (y ∷ l) h k = elim (Bool-cases (le x y)) [
    | inl e ↦ rw e (h, k)
    | inr e ↦ rw e (k.0, place-All P x l h k.1)
  ]

  pub sort_by-All : (P : A → Type 0) (l : List A) → All P l → All P (sort_by l)
  unfolding sort_by
  sort_by-All P [] h = tt
  sort_by-All P (x ∷ l) h = place-All P x (sort_by l) h.0 (sort_by-All P l h.1)

  module _ (total : (x y : A) → le x y ≡ false → le y x ≡ true)
      (trans : (x y z : A) → le x y ≡ true → le y z ≡ true → le x z ≡ true) where
    All-le :
        (x y : A) (l : List A)
        → le x y ≡ true
        → All (λ z. le y z ≡ true) l
        → All (λ z. le x z ≡ true) l
    All-le x y [] h k = tt
    All-le x y (z ∷ l) h k = (trans x y z h k.0, All-le x y l h k.1)

    place-IsSorted : (x : A) (l : List A) → IsSorted l → IsSorted (place x l)
    unfolding place
    place-IsSorted x [] s = (tt, tt)
    place-IsSorted x (y ∷ l) s = elim (Bool-cases (le x y)) [
      | inl h ↦ rw h ((h, All-le x y l h s.0), s)
      | inr h ↦ rw h (place-All (λ z. le y z ≡ true) x l (total x y h) s.0, place-IsSorted x l s.1)
    ]

    pub sort_by-IsSorted : (l : List A) → IsSorted (sort_by l)
    unfolding sort_by
    sort_by-IsSorted [] = tt
    sort_by-IsSorted (x ∷ l) = place-IsSorted x (sort_by l) (sort_by-IsSorted l)
