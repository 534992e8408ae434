-- ===== src/Reliability/Redaction/Keys.antt =====
-- A key, its separators and its value, as a round of `redact_key_values` reads them.
use weftgrid.Base.{
  ℕ, ◌≡◌, refl, sym, ap, ◌∙◌, Bool, true, false, not, Option, none, some, [], ◌∷◌, ◌++◌, length,
  map, Bytes, arith, All, All-weaken, ◌||◌, ◌==◌, ◌⊎◌, inl, inr, Bool-cases,
}
use weftgrid.Base.Text.{codes}
use weftgrid.Reliability.Redaction.{
  advance, run_length, to_lower, at_word_start, match_sensitive_key, is_separator, is_assignment,
  any_byte, is_alphanumeric, ends_value, value_redacted, value_after, key_step, scan,
}
use weftgrid.Base.{take-length-append, length-append}
use weftgrid.Reliability.Redaction.Values.{scan_fuel, key_step-Proceeds}

-- The byte in front of what follows some bytes.
abbrev pub last_of : Option ℕ → Bytes → Option ℕ
last_of prev [] = prev
last_of prev (c ∷ cs) = last_of (some c) cs

-- The scan of a text from a byte on.
unfoldable pub redact_from : Option ℕ → Bytes → Bytes
redact_from prev text = scan key_step (length text) (prev, text)

advance-append :
    (prev : Option ℕ) (xs s : Bytes) → advance (length xs) (prev, xs ++ s) ≡ (last_of prev xs, s)
unfolding advance
advance-append prev [] s = refl
advance-append prev (x ∷ xs) s = advance-append (some x) xs s

-- The text is empty or begins with a byte at which the test fails.
abbrev pub Stops : (ℕ → Bool) → Bytes → Type 0
Stops test [] = Unit {0}
Stops test (c ∷ cs) = test c ≡ false

run_length-append :
    (test : ℕ → Bool) (xs s : Bytes)
    → All (λ c. test c ≡ true) xs
    → Stops test s
    → run_length test (xs ++ s) ≡ length xs
unfolding run_length
run_length-append test [] [] h e = refl
run_length-append test [] (c ∷ s) h e = rw e refl
run_length-append test (x ∷ xs) s h e = rw (h.0, run_length-append test xs s h.1 e) refl

-- The word is a key of the list wherever the byte `s` follows it.
abbrev pub IsKey : ℕ → Bytes → Bytes → Type 0
IsKey s key name =
    (x : Bytes) → match_sensitive_key (map to_lower (key ++ (s ∷ x))) ≡ some (length key, name)

abbrev pub is_among : ℕ → Bytes → Bool
is_among c [] = false
is_among c (d ∷ ds) = c == d || is_among c ds

-- What stands between a key and its value: blanks, tabs, `:`, `=` and quotes.
abbrev pub separators : Bytes
separators = b' ' ∷ 9 ∷ b':' ∷ b'=' ∷ 34 ∷ 39 ∷ []

-- What ends a value: white space, `;`, `,`, quotes, `&`, `}` and `]`.
abbrev pub terminators : Bytes
terminators = b' ' ∷ 9 ∷ 13 ∷ 10 ∷ b';' ∷ b',' ∷ 34 ∷ 39 ∷ b'&' ∷ b'}' ∷ b']' ∷ []

abbrev pub IsSeparator : ℕ → Type 0
IsSeparator c = is_among c separators ≡ true

-- A byte within a value.
abbrev pub IsInside : ℕ → Type 0
IsInside c = is_among c terminators ≡ false

-- The bytes between a key and its value: separators, with a `:` or a `=` among them.
abbrev pub IsAssignment : Bytes → Type 0
IsAssignment seps =
    All IsSeparator seps × ((is_among b':' seps ≡ true) ⊎ (is_among b'=' seps ≡ true))

-- The first byte of a value is in the value, and is not taken for a separator.
abbrev pub IsFirst : ℕ → Type 0
IsFirst c = is_among c separators ≡ false

-- The text is empty or begins with the end of a value.
abbrev pub Ended : Bytes → Type 0
Ended = Stops (λ c. not (is_among c terminators))

-- A word begins after that byte, or at the start of the text.
abbrev pub IsBoundary : Option ℕ → Type 0
IsBoundary none = Unit {0}
IsBoundary (some p) = (is_alphanumeric p ≡ false) × (p == b'_' ≡ false) × (p == b'-' ≡ false)

-- What is written for the text before a key does not depend on the text from the key on.
abbrev pub IsQuiet : Bytes → Bytes → Type 0
IsQuiet before written =
    (x : Bytes) → redact_from none (before ++ x) ≡ written ++ redact_from (last_of none before) x

pub or_false : (b : Bool) → (b || false) ≡ b
or_false true = refl
or_false false = refl

separator-among : (c : ℕ) → is_separator c ≡ is_among c separators
separator-among c =
    ap (λ b. c == b' ' || (c == 9 || (c == b':' || (c == b'=' || (c == 34 || b)))))
      (sym (or_false (c == 39)))

ends_value-among : (c : ℕ) → ends_value c ≡ is_among c terminators
ends_value-among c =
    ap
      (λ b.
        c == b' '
        || (c == 9
            || (c == 13
                || (c == 10
                    || (c == b';'
                        || (c == b','
                            || (c == 34 || (c == 39 || (c == b'&' || (c == b'}' || b))))))))))
      (sym (or_false (c == b']')))

separators-skipped : (seps : Bytes) → All IsSeparator seps → All (λ c. is_separator c ≡ true) seps
separators-skipped seps h = All-weaken (λ c e. separator-among c ∙ e) seps h

value-taken : (v : Bytes) → All IsInside v → All (λ c. not (ends_value c) ≡ true) v
value-taken v h = All-weaken (λ c e. ap not (ends_value-among c ∙ e)) v h

pub Ended-Stops : (tail : Bytes) → Ended tail → Stops (λ c. not (ends_value c)) tail
Ended-Stops [] h = tt
Ended-Stops (t ∷ r) h = ap not (ends_value-among t) ∙ h

at_word_start-boundary : (prev : Option ℕ) → IsBoundary prev → at_word_start prev ≡ true
unfolding at_word_start
at_word_start-boundary none h = refl
at_word_start-boundary (some p) h = rw (h.0, h.1, h.2) refl

any_byte-among :
    (test : ℕ → Bool) (b : ℕ) (seps : Bytes)
    → ((c : ℕ) → b == c ≡ true → test c ≡ true)
    → is_among b seps ≡ true
    → any_byte test seps ≡ true
unfolding any_byte
any_byte-among test b [] f h = h
any_byte-among test b (c ∷ cs) f h = elim (Bool-cases (b == c)) [
  | inl e ↦ rw (f c e) refl
  | inr e ↦ ground (arith, any_byte-among test b cs f (rw e at h))
]

any_byte-assignment : (seps : Bytes) → IsAssignment seps → any_byte is_assignment seps ≡ true
any_byte-assignment seps h = elim h.1 [
  | inl e ↦ any_byte-among is_assignment b':' seps (λ c q. ground arith) e
  | inr e ↦ any_byte-among is_assignment b'=' seps (λ c q. ground arith) e
]

value_after-key :
    (prev : Option ℕ) (key name seps : Bytes) (c : ℕ) (v tail : Bytes)
    → IsAssignment seps
    → IsFirst c
    → All IsInside (c ∷ v)
    → Ended tail
    → value_after key name (prev, seps ++ (c ∷ (v ++ tail)))
      ≡ some (record {
        written = key ++ codes ": <redacted:" ++ name ++ codes ">";
        next = (last_of (last_of prev seps) (c ∷ v), tail);
      })
unfolding value_after
value_after-key prev key name seps c v tail assigned first inside ended =
    let value : Bytes = c ∷ (v ++ tail) in
    let skipped =
      run_length-append is_separator seps value (separators-skipped seps assigned.0)
        (separator-among c ∙ first) in
    let long =
      run_length-append (λ b. not (ends_value b)) (c ∷ v) tail (value-taken (c ∷ v) inside)
        (Ended-Stops tail ended) in
    rw
      (
        skipped,
        take-length-append seps value,
        any_byte-assignment seps assigned,
        advance-append prev seps value,
      )
      (rw (long, advance-append (last_of prev seps) (c ∷ v) tail) refl)

value_redacted-key :
    (prev : Option ℕ) (key name seps : Bytes) (c : ℕ) (v tail : Bytes)
    → IsAssignment seps
    → IsFirst c
    → All IsInside (c ∷ v)
    → Ended tail
    → value_redacted (prev, key ++ (seps ++ (c ∷ (v ++ tail)))) (some (length key, name))
      ≡ some (record {
        written = key ++ codes ": <redacted:" ++ name ++ codes ">";
        next = (last_of (last_of (last_of prev key) seps) (c ∷ v), tail);
      })
unfolding value_redacted
value_redacted-key prev key name seps c v tail assigned first inside ended =
    let rest : Bytes = seps ++ (c ∷ (v ++ tail)) in
    rw (take-length-append key rest, advance-append prev key rest)
      (value_after-key (last_of prev key) key name seps c v tail assigned first inside ended)

-- The key's marker in place of its value.
abbrev pub marked : Bytes → Bytes → Bytes
marked key name = key ++ codes ": <redacted:" ++ name ++ codes ">"

-- The byte in front of what follows the key, the separators and the value.
abbrev pub end_of : Option ℕ → Bytes → Bytes → Bytes → Option ℕ
end_of prev key seps value = last_of (last_of (last_of prev key) seps) value

key_step-key :
    (prev : Option ℕ) (key name : Bytes) (s : ℕ) (seps : Bytes) (c : ℕ) (v tail : Bytes)
    → IsBoundary prev
    → IsKey s key name
    → IsAssignment (s ∷ seps)
    → IsFirst c
    → All IsInside (c ∷ v)
    → Ended tail
    → key_step (prev, key ++ (s ∷ (seps ++ (c ∷ (v ++ tail)))))
      ≡ record { written = marked key name; next = (end_of prev key (s ∷ seps) (c ∷ v), tail) }
unfolding key_step
key_step-key prev key name s seps c v tail start is_key assigned first inside ended =
    rw (at_word_start-boundary prev start, is_key (seps ++ (c ∷ (v ++ tail))))
      (rw (value_redacted-key prev key name (s ∷ seps) c v tail assigned first inside ended) refl)

-- A key at the start of a word, separators and a value, up to the end of the text or a byte that ends
-- values: all that is left of the value is the marker with the key's name.
pub redact_from-key :
    (prev : Option ℕ) (k : ℕ) (key name : Bytes) (s : ℕ) (seps : Bytes) (c : ℕ) (v tail : Bytes)
    → IsBoundary prev
    → IsKey s (k ∷ key) name
    → IsAssignment (s ∷ seps)
    → IsFirst c
    → All IsInside (c ∷ v)
    → Ended tail
    → redact_from prev ((k ∷ key) ++ (s ∷ (seps ++ (c ∷ (v ++ tail)))))
      ≡ marked (k ∷ key) name ++ redact_from (end_of prev (k ∷ key) (s ∷ seps) (c ∷ v)) tail
unfolding redact_from scan
redact_from-key prev k key name s seps c v tail start is_key assigned first inside ended =
    rw (key_step-key prev (k ∷ key) name s seps c v tail start is_key assigned first inside ended) (
      ap (λ t. marked (k ∷ key) name ++ t)
        (scan_fuel key_step (length (key ++ (s ∷ (seps ++ (c ∷ (v ++ tail)))))) (length tail)
          (end_of prev (k ∷ key) (s ∷ seps) (c ∷ v), tail) key_step-Proceeds
          (omega (
            arith,
            length-append {0} key (s ∷ (seps ++ (c ∷ (v ++ tail)))),
            length-append {0} seps (c ∷ (v ++ tail)),
            length-append {0} v tail,
          ))
          (omega arith)))
