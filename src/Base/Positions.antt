-- ===== src/Base/Positions.antt =====
-- Lists edited at an index, as `Vec::remove` and `Vec::insert` do it.
use Prim.Native.Nat.{ℕ, zero, suc, ◌+◌, ◌≤◌, ◌<◌}
use mathlib.Core.Path.{◌≡◌, refl}
use mathlib.Core.List.{List, [], ◌∷◌}
use mathlib.Core.Option.{some}
use native.Mathlib.Omega.{arith}
use weftgrid.Base.Lists.{length, get_elem?}

module _ {ℓ} {A : Type ℓ} where
  unfoldable pub remove_at : ℕ → List A → List A
  remove_at i [] = []
  remove_at zero (x ∷ xs) = xs
  remove_at (suc i) (x ∷ xs) = x ∷ remove_at i xs

  unfoldable pub insert_at : ℕ → A → List A → List A
  insert_at zero a xs = a ∷ xs
  insert_at (suc i) a [] = a ∷ []
  insert_at (suc i) a (x ∷ xs) = x ∷ insert_at i a xs

  pub length-remove_at :
      (i : ℕ) (xs : List A) → i < length xs → length (remove_at i xs) + 1 ≡ length xs
  unfolding remove_at
  length-remove_at i [] h = ground (arith, h)
  length-remove_at zero (x ∷ xs) h = omega arith
  length-remove_at (suc i) (x ∷ xs) h = omega (arith, length-remove_at i xs (omega (arith, h)))

  pub length-insert_at : (i : ℕ) (a : A) (xs : List A) → length (insert_at i a xs) ≡ length xs + 1
  unfolding insert_at
  length-insert_at zero a xs = omega arith
  length-insert_at (suc i) a [] = omega arith
  length-insert_at (suc i) a (x ∷ xs) = omega (arith, length-insert_at i a xs)

  pub remove_at-before :
      (p i : ℕ) (xs : List A) → i < p → get_elem? (remove_at p xs) i ≡ get_elem? xs i
  unfolding remove_at
  remove_at-before p i [] h = refl
  remove_at-before zero i (x ∷ xs) h = ground (arith, h)
  remove_at-before (suc p) zero (x ∷ xs) h = refl
  remove_at-before (suc p) (suc i) (x ∷ xs) h = remove_at-before p i xs (omega (arith, h))

  pub remove_at-after :
      (p i : ℕ) (xs : List A) → p ≤ i → get_elem? (remove_at p xs) i ≡ get_elem? xs (suc i)
  unfolding remove_at
  remove_at-after p i [] h = refl
  remove_at-after zero i (x ∷ xs) h = refl
  remove_at-after (suc p) zero (x ∷ xs) h = ground (arith, h)
  remove_at-after (suc p) (suc i) (x ∷ xs) h = remove_at-after p i xs (omega (arith, h))

  pub insert_at-before :
      (p i : ℕ) (a : A) (xs : List A)
      → i < p
      → i < length xs
      → get_elem? (insert_at p a xs) i ≡ get_elem? xs i
  unfolding insert_at
  insert_at-before zero i a xs h k = ground (arith, h)
  insert_at-before (suc p) i a [] h k = ground (arith, k)
  insert_at-before (suc p) zero a (x ∷ xs) h k = refl
  insert_at-before (suc p) (suc i) a (x ∷ xs) h k =
      insert_at-before p i a xs (omega (arith, h)) (omega (arith, k))

  pub insert_at_self :
      (p : ℕ) (a : A) (xs : List A) → p ≤ length xs → get_elem? (insert_at p a xs) p ≡ some a
  unfolding insert_at
  insert_at_self zero a xs h = refl
  insert_at_self (suc p) a [] h = ground (arith, h)
  insert_at_self (suc p) a (x ∷ xs) h = insert_at_self p a xs (omega (arith, h))

  pub insert_at-after :
      (p i : ℕ) (a : A) (xs : List A)
      → p ≤ i
      → get_elem? (insert_at p a xs) (suc i) ≡ get_elem? xs i
  unfolding insert_at
  insert_at-after zero i a xs h = refl
  insert_at-after (suc p) zero a xs h = ground (arith, h)
  insert_at-after (suc p) (suc i) a [] h = refl
  insert_at-after (suc p) (suc i) a (x ∷ xs) h = insert_at-after p i a xs (omega (arith, h))
