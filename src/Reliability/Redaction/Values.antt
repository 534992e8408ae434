-- ===== src/Reliability/Redaction/Values.antt =====
-- The scan ends: each round goes on.
use weftgrid.Base.{
  ℕ, zero, suc, ◌≤◌, ◌<◌, ◌≡◌, refl, ap, Bool, true, false, Option, none, some, List, [], ◌∷◌, ◌++◌,
  if◌then◌else◌, length, take, map, Bytes, arith, All, Bool-cases, inl, inr,
}
use weftgrid.Reliability.Redaction.{
  Position, advance, run_length, to_lower, at_word_start, match_keyword, match_in,
  match_sensitive_key, sensitive_keys, is_separator, is_assignment, any_byte, skip_separators,
  consume_value, next_char_len, Redacted, value_redacted, value_after, key_step, scan, or_copied,
  first_match,
}

length-advance : (n : ℕ) (p : Position) → length (advance n p).1 ≤ length p.1
unfolding advance
length-advance zero p = omega arith
length-advance (suc n) (prev, []) = omega arith
length-advance (suc n) (prev, c ∷ cs) = omega (arith, length-advance n (some c, cs))

-- Going on by at least one byte.
advance-lt :
    (n : ℕ) (prev : Option ℕ) (c : ℕ) (cs : Bytes)
    → 0 < n
    → length (advance n (prev, c ∷ cs)).1 ≤ length cs
unfolding advance
advance-lt zero prev c cs h = elim h [ ]
advance-lt (suc n) prev c cs h = length-advance n (some c, cs)

next_char_len_pos : (b : ℕ) → 0 < next_char_len b
unfolding next_char_len
next_char_len_pos b = ground arith

-- Every round of the scan takes at least one byte.
abbrev pub Proceeds : (Position → Redacted) → Type 0
Proceeds step =
    (prev : Option ℕ) (c : ℕ) (cs : Bytes) → length (step (prev, c ∷ cs)).next.1 ≤ length cs

-- With a round for each byte or more, the fuel makes no difference.
pub scan_fuel :
    (step : Position → Redacted) (f g : ℕ) (p : Position)
    → Proceeds step
    → length p.1 ≤ f
    → length p.1 ≤ g
    → scan step f p ≡ scan step g p
unfolding scan
scan_fuel step zero zero (prev, cs) s h k = refl
scan_fuel step zero (suc g) (prev, []) s h k = refl
scan_fuel step zero (suc g) (prev, c ∷ cs) s h k = absurd (omega arith)
scan_fuel step (suc f) zero (prev, []) s h k = refl
scan_fuel step (suc f) zero (prev, c ∷ cs) s h k = absurd (omega arith)
scan_fuel step (suc f) (suc g) (prev, []) s h k = refl
scan_fuel step (suc f) (suc g) (prev, c ∷ cs) s h k =
    ap (λ t. (step (prev, c ∷ cs)).written ++ t)
      (scan_fuel step f g (step (prev, c ∷ cs)).next s (omega (arith, s prev c cs))
        (omega (arith, s prev c cs)))

-- `none`, or a redaction that goes on.
abbrev GoesOn : ℕ → Option Redacted → Type 0
GoesOn n none = Unit {0}
GoesOn n (some r) = length r.next.1 ≤ n

consume_value-le : (p : Position) → length (consume_value p).1 ≤ length p.1
unfolding consume_value
consume_value-le p = length-advance _ p

skip_separators-le : (p : Position) → length (skip_separators p).1 ≤ length p.1
unfolding skip_separators
skip_separators-le p = length-advance _ p

or_copied-GoesOn :
    (prev : Option ℕ) (c : ℕ) (cs : Bytes) (o : Option Redacted)
    → GoesOn (length cs) o
    → length (or_copied (prev, c ∷ cs) o).next.1 ≤ length cs
or_copied-GoesOn prev c cs none h = advance-lt (next_char_len c) prev c cs (next_char_len_pos c)
or_copied-GoesOn prev c cs (some r) h = h

abbrev IsPositive : Option (ℕ × Bytes) → Type 0
IsPositive none = Unit {0}
IsPositive (some (n, name)) = 0 < n

first_match-IsPositive :
    (k : Bytes × Bytes) (o : Option ℕ) (rest : Option (ℕ × Bytes))
    → 0 < length k.0
    → IsPositive rest
    → IsPositive (first_match k o rest)
first_match-IsPositive (key, name) none rest h r = r
first_match-IsPositive (key, name) (some n) rest h r = h

match_in-IsPositive :
    (ks : List (Bytes × Bytes)) (lower : Bytes)
    → All (λ k. 0 < length k.0) ks
    → IsPositive (match_in ks lower)
unfolding match_in
match_in-IsPositive [] lower h = tt
match_in-IsPositive (k ∷ ks) lower h =
    first_match-IsPositive k (match_keyword lower k.0) (match_in ks lower) h.0
      (match_in-IsPositive ks lower h.1)

value_redacted-GoesOn :
    (prev : Option ℕ) (c : ℕ) (cs : Bytes) (o : Option (ℕ × Bytes))
    → IsPositive o
    → GoesOn (length cs) (value_redacted (prev, c ∷ cs) o)
unfolding value_redacted value_after
value_redacted-GoesOn prev c cs none h = tt
value_redacted-GoesOn prev c cs (some (n, name)) h =
    let sep = advance n (prev, c ∷ cs) in
    elim (Bool-cases (any_byte is_assignment (take (run_length is_separator sep.1) sep.1))) [
      | inl e ↦ rw e (
          omega (
            arith,
            consume_value-le (skip_separators sep),
            skip_separators-le sep,
            advance-lt n prev c cs h,
          ))
      | inr e ↦ rw e tt
    ]

guarded-GoesOn :
    (n : ℕ) (b : Bool) (o : Option Redacted) → GoesOn n o → GoesOn n (if b then o else none)
guarded-GoesOn n true o h = h
guarded-GoesOn n false o h = tt

pub key_step-Proceeds : Proceeds key_step
unfolding key_step
key_step-Proceeds prev c cs = or_copied-GoesOn prev c cs _ (
    guarded-GoesOn (length cs) (at_word_start prev) _ (
      value_redacted-GoesOn prev c cs (match_sensitive_key (map to_lower (c ∷ cs)))
        (match_in-IsPositive sensitive_keys (map to_lower (c ∷ cs)) (omega arith))))
