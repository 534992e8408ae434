-- ===== src/Reliability/Redaction/Secrets.antt =====
-- What a key's value leaves in the result of `redact_key_values`: nothing.
use weftgrid.Base.{
  ℕ, ◌≡◌, refl, sym, ap, ◌∙◌, Bool, true, false, not, Option, none, some, List, [], ◌∷◌, ◌++◌,
  if◌then◌else◌, leb, length, take, map, Bytes, arith, All, ◌&&◌,
}
use weftgrid.Base.Text.{starts_with}
use weftgrid.Reliability.Redaction.{
  Position, advance, to_lower, at_word_start, match_keyword, match_in, match_sensitive_key,
  sensitive_keys, ends_value, next_char_len, Redacted, value_redacted, key_step, scan, or_copied,
  redact_key_values,
}
use weftgrid.Reliability.Redaction.Keys.{
  last_of, redact_from, IsKey, IsInside, IsAssignment, IsFirst, Ended, IsBoundary, IsQuiet,
  Ended-Stops, marked, end_of, redact_from-key,
}

abbrev is_lower : ℕ → Bool
is_lower c = leb b'a' c && leb c b'z'

abbrev lower_head : Bytes → Bool
lower_head [] = false
lower_head (c ∷ cs) = is_lower c

abbrev lower_heads : List (Bytes × Bytes) → Bool
lower_heads [] = true
lower_heads (k ∷ ks) = lower_head k.0 && lower_heads ks

match_keyword-head :
    (h : ℕ) (hs keyword : Bytes)
    → lower_head keyword ≡ true
    → is_lower h ≡ false
    → match_keyword (h ∷ hs) keyword ≡ none
unfolding match_keyword starts_with
match_keyword-head h hs [] k n = cc
match_keyword-head h hs (c ∷ cs) k n = ground arith

match_in-head :
    (ks : List (Bytes × Bytes)) (h : ℕ) (hs : Bytes)
    → lower_heads ks ≡ true
    → is_lower h ≡ false
    → match_in ks (h ∷ hs) ≡ none
unfolding match_in
match_in-head [] h hs k n = refl
match_in-head ((key, name) ∷ ks) h hs k n =
    rw (match_keyword-head h hs key (ground arith) n) (match_in-head ks h hs (ground arith) n)

ended-is_lower : (t : ℕ) → not (ends_value t) ≡ false → is_lower (to_lower t) ≡ false
ended-is_lower t h = ground arith

ended_len : (t : ℕ) → not (ends_value t) ≡ false → next_char_len t ≡ 1
unfolding next_char_len
ended_len t h = ground arith

copied-ended :
    (prev : Option ℕ) (t : ℕ) (r : Bytes) (n : ℕ)
    → n ≡ 1
    → ◌≡◌ {A = Redacted}
        (record { written = take n (t ∷ r); next = advance n (prev, t ∷ r) })
        (record { written = t ∷ []; next = (some t, r) })
unfolding advance
copied-ended prev t r n e = rw e refl

guarded_none : (b : Bool) → ◌≡◌ {A = Option Redacted} (if b then none else none) none
guarded_none true = refl
guarded_none false = refl

-- A byte that ends a value is copied, whatever stands in front of it.
key_step-ended :
    (prev : Option ℕ) (t : ℕ) (r : Bytes)
    → not (ends_value t) ≡ false
    → key_step (prev, t ∷ r) ≡ record { written = t ∷ []; next = (some t, r) }
unfolding key_step value_redacted
key_step-ended prev t r h =
    let p : Position = (prev, t ∷ r) in
    let m : match_sensitive_key (map to_lower (t ∷ r)) ≡ none =
      match_in-head sensitive_keys (to_lower t) (map to_lower r) refl (ended-is_lower t h) in
    ap (λ o. or_copied p (if at_word_start prev then value_redacted p o else none)) m
    ∙ (ap (or_copied p) (guarded_none (at_word_start prev))
        ∙ copied-ended prev t r (next_char_len t) (ended_len t h))

redact_from-Ended :
    (a b : Option ℕ) (tail : Bytes) → Ended tail → redact_from a tail ≡ redact_from b tail
unfolding redact_from scan
redact_from-Ended a b [] h = refl
redact_from-Ended a b (t ∷ r) h' =
    let h = Ended-Stops (t ∷ r) h' in
    ap (λ (x : Redacted). x.written ++ scan key_step (length r) x.next)
      (key_step-ended a t r h ∙ sym (key_step-ended b t r h))

-- Two texts that differ only in one value have the same result, so that nothing of the value can be
-- read off it, if: the value stands after a key at the start of a word and after separators with a `:`
-- or a `=` among them; neither value begins with a separator or has a byte that ends values; what
-- follows is the end of the text or such a byte; and what is written for the text before the key does
-- not depend on what follows.
pub redact_key_values-hides :
    (before written : Bytes) (k : ℕ) (key name : Bytes) (s : ℕ) (seps : Bytes) (c d : ℕ)
    (v w tail : Bytes)
    → IsQuiet before written
    → IsBoundary (last_of none before)
    → IsKey s (k ∷ key) name
    → IsAssignment (s ∷ seps)
    → IsFirst c
    → IsFirst d
    → All IsInside (c ∷ v)
    → All IsInside (d ∷ w)
    → Ended tail
    → redact_key_values (before ++ ((k ∷ key) ++ (s ∷ (seps ++ (c ∷ (v ++ tail))))))
      ≡ redact_key_values (before ++ ((k ∷ key) ++ (s ∷ (seps ++ (d ∷ (w ++ tail))))))
unfolding redact_key_values redact_from
redact_key_values-hides before written k key name s seps c d v w tail quiet start is_key assigned fc
      fd ic id ended =
    let prev = last_of none before in
    let one = redact_from-key prev k key name s seps c v tail start is_key assigned fc ic ended in
    let other = redact_from-key prev k key name s seps d w tail start is_key assigned fd id ended in
    let same =
      redact_from-Ended (end_of prev (k ∷ key) (s ∷ seps) (c ∷ v))
        (end_of prev (k ∷ key) (s ∷ seps) (d ∷ w)) tail ended in
    quiet ((k ∷ key) ++ (s ∷ (seps ++ (c ∷ (v ++ tail)))))
    ∙ (ap (λ t. written ++ t) (one ∙ (ap (λ t. marked (k ∷ key) name ++ t) same ∙ sym other))
        ∙ sym (quiet ((k ∷ key) ++ (s ∷ (seps ++ (d ∷ (w ++ tail)))))))
