-- ===== src/Base/Text/Laws.antt =====
-- Well-formed UTF-8 passes `from_utf8_lossy` unchanged; `split_once` finds the first separator.
use mathlib.Core.Bool.{true}
use mathlib.Core.List.{[], ◌∷◌, ◌++◌}
use mathlib.Core.Logic.{◌≢◌}
use mathlib.Core.Option.{some}
use mathlib.Core.Path.{◌≡◌, refl}
use Prim.Native.Nat.{ℕ, zero, suc, ◌<◌}
use native.Mathlib.Omega.{arith}
use weftgrid.Base.Lists.{Bytes, length, drop, All, take-append-drop}
use weftgrid.Base.Text.{
  split_once, strip_prefix, char_tail, utf8_rounds, lossy_rounds, is_utf8, from_utf8_lossy,
}

lossy_rounds_id : (f : ℕ) (xs : Bytes) → utf8_rounds f xs ≡ true → lossy_rounds f xs ≡ xs
unfolding utf8_rounds lossy_rounds
lossy_rounds_id zero [] h = refl
lossy_rounds_id (suc f) [] h = refl
lossy_rounds_id zero (b ∷ xs) h = cc
lossy_rounds_id (suc f) (b ∷ xs) h =
    ground (
      arith,
      lossy_rounds_id f (drop (char_tail b xs).0 xs),
      take-append-drop (char_tail b xs).0 xs,
    )

pub from_utf8_lossy_id : (xs : Bytes) → is_utf8 xs ≡ true → from_utf8_lossy xs ≡ xs
unfolding is_utf8 from_utf8_lossy
from_utf8_lossy_id xs h = lossy_rounds_id (length xs) xs h

-- An ASCII byte in front stays in front.
pub from_utf8_lossy-cons :
    (b : ℕ) (xs : Bytes) → b < 128 → from_utf8_lossy (b ∷ xs) ≡ b ∷ from_utf8_lossy xs
unfolding from_utf8_lossy char_tail
from_utf8_lossy-cons b xs h = ground arith

pub from_utf8_lossy-append :
    (ps xs : Bytes) → All (λ b. b < 128) ps → from_utf8_lossy (ps ++ xs) ≡ ps ++ from_utf8_lossy xs
from_utf8_lossy-append [] xs h = refl
from_utf8_lossy-append (b ∷ ps) xs h =
    ground (arith, from_utf8_lossy-cons b (ps ++ xs), from_utf8_lossy-append ps xs)

pub split_once-append :
    (c : ℕ) (xs ys : Bytes) → All (λ b. b ≢ c) xs → split_once c (xs ++ (c ∷ ys)) ≡ some (xs, ys)
unfolding split_once
split_once-append c [] ys h = ground arith
split_once-append c (x ∷ xs) ys h = ground (arith, split_once-append c xs ys h.1)

pub strip_prefix-append : (p xs : Bytes) → strip_prefix p (p ++ xs) ≡ some xs
unfolding strip_prefix
strip_prefix-append [] xs = refl
strip_prefix-append (c ∷ p) xs = ground (arith, strip_prefix-append p xs)
