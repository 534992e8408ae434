-- ===== src/Base/Text/Utf8.antt =====
-- Two well-formed texts join to one.
use mathlib.Core.Bool.{true}
use mathlib.Core.List.{[], ◌∷◌, ◌++◌}
use mathlib.Core.Path.{◌≡◌, refl}
use Prim.Native.Nat.{ℕ, zero, suc, ◌+◌, ◌≤◌}
use native.Mathlib.Omega.{arith}
use weftgrid.Base.Lists.{Bytes, length, drop, length-append}
use weftgrid.Base.Text.{continuations, long_tail, char_tail, utf8_rounds, is_utf8}

continuations-append :
    (k : ℕ) (xs ys : Bytes)
    → (continuations k xs).1 ≡ true
    → continuations k (xs ++ ys) ≡ continuations k xs
unfolding continuations
continuations-append zero xs ys h = refl
continuations-append (suc k) [] ys h = cc
continuations-append (suc k) (c ∷ xs) ys h = ground (arith, continuations-append k xs ys)

continuations-le : (k : ℕ) (xs : Bytes) → (continuations k xs).0 ≤ length xs
unfolding continuations
continuations-le zero xs = omega arith
continuations-le (suc k) [] = omega arith
continuations-le (suc k) (c ∷ xs) = ground (arith, continuations-le k xs)

long_tail-append :
    (b k : ℕ) (xs ys : Bytes)
    → (long_tail b k xs).1 ≡ true
    → long_tail b k (xs ++ ys) ≡ long_tail b k xs
unfolding long_tail
long_tail-append b k [] ys h = cc
long_tail-append b k (c ∷ xs) ys h = ground (arith, continuations-append k xs ys)

long_tail-le : (b k : ℕ) (xs : Bytes) → (long_tail b k xs).0 ≤ length xs
unfolding long_tail
long_tail-le b k [] = omega arith
long_tail-le b k (c ∷ xs) = ground (arith, continuations-le k xs)

-- A whole character is read the same whatever follows, and lies within the text.
char_tail-append :
    (b : ℕ) (xs ys : Bytes) → (char_tail b xs).1 ≡ true → char_tail b (xs ++ ys) ≡ char_tail b xs
unfolding char_tail
char_tail-append b xs ys h =
    ground
      (arith, continuations-append 1 xs ys, long_tail-append b 1 xs ys, long_tail-append b 2 xs ys)

char_tail-le : (b : ℕ) (xs : Bytes) → (char_tail b xs).0 ≤ length xs
unfolding char_tail
char_tail-le b xs = ground (arith, continuations-le 1 xs, long_tail-le b 1 xs, long_tail-le b 2 xs)

drop-append : (n : ℕ) (xs ys : Bytes) → n ≤ length xs → drop n (xs ++ ys) ≡ drop n xs ++ ys
drop-append zero xs ys h = refl
drop-append (suc n) [] ys h = absurd (omega arith)
drop-append (suc n) (x ∷ xs) ys h = drop-append n xs ys (omega arith)

utf8_rounds_mono :
    (f g : ℕ) (xs : Bytes) → f ≤ g → utf8_rounds f xs ≡ true → utf8_rounds g xs ≡ true
unfolding utf8_rounds
utf8_rounds_mono f zero [] l h = refl
utf8_rounds_mono f (suc g) [] l h = refl
utf8_rounds_mono zero g (b ∷ xs) l h = cc
utf8_rounds_mono (suc f) zero (b ∷ xs) l h = absurd (omega arith)
utf8_rounds_mono (suc f) (suc g) (b ∷ xs) l h =
    ground (arith, utf8_rounds_mono f g (drop (char_tail b xs).0 xs))

utf8_rounds-append :
    (f g k : ℕ) (xs ys : Bytes)
    → f + g ≤ k
    → utf8_rounds f xs ≡ true
    → utf8_rounds g ys ≡ true
    → utf8_rounds k (xs ++ ys) ≡ true
unfolding utf8_rounds
utf8_rounds-append f g k [] ys l h i = utf8_rounds_mono g k ys (omega arith) i
utf8_rounds-append zero g k (b ∷ xs) ys l h i = cc
utf8_rounds-append (suc f) g zero (b ∷ xs) ys l h i = absurd (omega arith)
utf8_rounds-append (suc f) g (suc k) (b ∷ xs) ys l h i = ground (
  arith,
  char_tail-append b xs ys,
  drop-append (char_tail b xs).0 xs ys (char_tail-le b xs),
  utf8_rounds-append f g k (drop (char_tail b xs).0 xs) ys,
)

pub is_utf8-append :
    (xs ys : Bytes) → is_utf8 xs ≡ true → is_utf8 ys ≡ true → is_utf8 (xs ++ ys) ≡ true
unfolding is_utf8
is_utf8-append xs ys h i =
    utf8_rounds-append (length xs) (length ys) (length (xs ++ ys)) xs ys
      (omega (arith, length-append xs ys)) h i
