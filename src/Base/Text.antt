-- ===== src/Base/Text.antt =====
-- Texts as the list of their UTF-8 bytes, with what the sources use of the standard library's
-- `str`: `split_once`, `strip_prefix`, `parse::<u16>`, `from_utf8` and `from_utf8_lossy`.
pub mod Laws
pub mod Utf8
use Prim.Native.Char.{code}
use Prim.Native.Nat.{ℕ, zero, suc, ◌+◌, ◌-◌, ◌*◌}
use Prim.Native.String.{String}
use mathlib.Core.Bool.{Bool, true, false, ◌&&◌, ◌||◌}
use mathlib.Core.List.{List, [], ◌∷◌, ◌++◌}
use mathlib.Core.Option
use mathlib.Core.Option.{Option, none, some}
use mathlib.Core.Path.{◌≡◌, refl, ap, ◌∙◌}
use mathlib.Core.Logic.{◌≢◌}
use native.Mathlib.Omega.{arith}
use weftgrid.Base.Lists.{Bytes, length, take, drop, All, take-append-drop}
use weftgrid.Base.Tests.{◌==◌, leb, ltb, if◌then◌else◌}

-- The code points of a literal, which are its bytes if it is ASCII.
abbrev pub codes : String → Bytes
codes String.[] = []
codes (String.◌∷◌ c s) = code c ∷ codes s

-- The text before the first `c` and the text after it.
unfoldable pub split_once : ℕ → Bytes → Option (Bytes × Bytes)
split_once c [] = none
split_once c (x ∷ xs) =
    if x == c then some ([], xs) else Option.map (λ p. (x ∷ p.0, p.1)) (split_once c xs)

unfoldable pub strip_prefix : Bytes → Bytes → Option Bytes
strip_prefix [] xs = some xs
strip_prefix (p ∷ ps) [] = none
strip_prefix (p ∷ ps) (x ∷ xs) = if x == p then strip_prefix ps xs else none

-- `starts_with` and `contains` of texts
unfoldable pub starts_with : Bytes → Bytes → Bool
starts_with [] xs = true
starts_with (p ∷ ps) [] = false
starts_with (p ∷ ps) (x ∷ xs) = let rest = starts_with ps xs in if p == x then rest else false

unfoldable pub contains : Bytes → Bytes → Bool
unfolding starts_with
contains needle [] = starts_with needle []
contains needle (x ∷ xs) = starts_with needle (x ∷ xs) || contains needle xs

-- The digit loop of `u16::from_str`: `none` for a byte that is no digit and for an overflow.
unfoldable pub parse_digits : ℕ → Bytes → Option ℕ
parse_digits acc [] = some acc
parse_digits acc (c ∷ cs) =
    if leb b'0' c && leb c b'9'
    then (if ltb (acc * 10 + (c - b'0')) 65536
        then parse_digits (acc * 10 + (c - b'0')) cs
        else none)
    else none

-- `u16::from_str`: one leading `+` is allowed, an empty number is not.
unfoldable pub parse_u16 : Bytes → Option ℕ
unfolding parse_digits
parse_u16 [] = none
parse_u16 (c ∷ []) = parse_digits 0 (c ∷ [])
parse_u16 (c ∷ d ∷ cs) = if c == b'+' then parse_digits 0 (d ∷ cs) else parse_digits 0 (c ∷ d ∷ cs)

is_continuation : ℕ → Bool
is_continuation c = leb 128 c && leb c 191

-- Reads up to `k` continuation bytes: how many there are, and whether all are there.
continuations : ℕ → Bytes → ℕ × Bool
continuations zero xs = (0, true)
continuations (suc k) [] = (0, false)
continuations (suc k) (c ∷ cs) =
    let r = continuations k cs in if is_continuation c then (suc r.0, r.1) else (0, false)

-- The range of the second byte of a character of three or four bytes.
second_in_range : ℕ → ℕ → Bool
second_in_range b c =
    if b == 0xE0
    then leb 0xA0 c && leb c 0xBF
    else if b == 0xED
    then leb 0x80 c && leb c 0x9F
    else if b == 0xF0
    then leb 0x90 c && leb c 0xBF
    else if b == 0xF4
    then leb 0x80 c && leb c 0x8F
    else is_continuation c

long_tail : ℕ → ℕ → Bytes → ℕ × Bool
long_tail b k [] = (0, false)
long_tail b k (c ∷ cs) =
    let r = continuations k cs in if second_in_range b c then (suc r.0, r.1) else (0, false)

-- How many bytes behind the first byte `b` belong to it, and whether they make a character.
unfoldable pub char_tail : ℕ → Bytes → ℕ × Bool
unfolding continuations second_in_range long_tail is_continuation
char_tail b xs =
    if ltb b 128
    then (0, true)
    else if leb 0xC2 b && leb b 0xDF
    then continuations 1 xs
    else if leb 0xE0 b && leb b 0xEF
    then long_tail b 1 xs
    else if leb 0xF0 b && leb b 0xF4
    then long_tail b 2 xs
    else (0, false)

-- U+FFFD
abbrev replacement : Bytes
replacement = 0xEF ∷ 0xBF ∷ 0xBD ∷ []

-- One round for each character or ill-formed piece; the length of the text is fuel enough.
utf8_rounds : ℕ → Bytes → Bool
unfolding char_tail
utf8_rounds _ [] = true
utf8_rounds zero (b ∷ xs) = false
utf8_rounds (suc f) (b ∷ xs) = (char_tail b xs).1 && utf8_rounds f (drop (char_tail b xs).0 xs)

lossy_rounds : ℕ → Bytes → Bytes
unfolding char_tail
lossy_rounds _ [] = []
lossy_rounds zero (b ∷ xs) = []
lossy_rounds (suc f) (b ∷ xs) =
    (if (char_tail b xs).1 then b ∷ take (char_tail b xs).0 xs else replacement)
    ++ lossy_rounds f (drop (char_tail b xs).0 xs)

-- Whether `from_utf8` accepts the bytes.
unfoldable pub is_utf8 : Bytes → Bool
unfolding utf8_rounds
is_utf8 xs = utf8_rounds (length xs) xs

unfoldable pub from_utf8_lossy : Bytes → Bytes
unfolding lossy_rounds
from_utf8_lossy xs = lossy_rounds (length xs) xs

-- `==` on texts
unfoldable pub equal : Bytes → Bytes → Bool
equal [] [] = true
equal (x ∷ xs) (y ∷ ys) = x == y && equal xs ys
equal _ _ = false
