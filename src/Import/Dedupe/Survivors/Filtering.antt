-- ===== src/Import/Dedupe/Survivors/Filtering.antt =====
-- The filter by domains and the deduplication, in either order.
use weftgrid.Base.{
  ◌≡◌, refl, sym, ap, ◌∙◌, Bool, true, false, List, [], ◌∷◌, if◌then◌else◌, select, map, Bytes,
  arith, if_pos, if_neg, Bool-cases, inl, inr, some, ◌⊎◌, ◌≢◌,
}
use weftgrid.Import.Dedupe.{
  ImportedCookie, key_discrete, dedupe_key, dedupe, any_in, filter_domains,
}
use weftgrid.Import.Dedupe.Survivors.{place, place_each, dedupe-place_each, newer}

-- The test is the same for two cookies of one key.
abbrev Respects : (ImportedCookie → Bool) → Type 0
Respects p = (c d : ImportedCookie) → dedupe_key c ≡ dedupe_key d → p c ≡ p d

newer-key :
    (x c : ImportedCookie)
    → dedupe_key x ≡ dedupe_key c
    → dedupe_key (newer (some x) c) ≡ dedupe_key c
newer-key x c h = ground arith

select-place :
    (p : ImportedCookie → Bool) (c : ImportedCookie) (out : List ImportedCookie)
    → Respects p
    → select p (place c out) ≡ (if p c then place c (select p out) else select p out)
unfolding place
select-place p c [] r = refl
select-place p c (x ∷ xs) r = elim (key_discrete (dedupe_key x) (dedupe_key c)) [
  | yes e ↦
      rw (if_pos (key_discrete (dedupe_key x) (dedupe_key c)) e) (together e (Bool-cases (p c)))
  | no e ↦
      rw (if_neg (key_discrete (dedupe_key x) (dedupe_key c)) e)
        (apart e (select-place p c xs r) (Bool-cases (p c)) (Bool-cases (p x)))
]
  where
    together :
        dedupe_key x ≡ dedupe_key c
        → (p c ≡ true) ⊎ (p c ≡ false)
        → select p (newer (some x) c ∷ xs)
          ≡ (if p c then place c (select p (x ∷ xs)) else select p (x ∷ xs))
    together e (inl t) =
        rw (r (newer (some x) c) c (newer-key x c e) ∙ t, t, r x c e ∙ t)
          (rw (if_pos (key_discrete (dedupe_key x) (dedupe_key c)) e) refl)
    together e (inr f) = rw (r (newer (some x) c) c (newer-key x c e) ∙ f, f, r x c e ∙ f) refl

    apart :
        dedupe_key x ≢ dedupe_key c
        → select p (place c xs) ≡ (if p c then place c (select p xs) else select p xs)
        → (p c ≡ true) ⊎ (p c ≡ false)
        → (p x ≡ true) ⊎ (p x ≡ false)
        → select p (x ∷ place c xs)
          ≡ (if p c then place c (select p (x ∷ xs)) else select p (x ∷ xs))
    apart e ih (inl t) (inl u) =
        rw (u, ih, t) (rw (if_neg (key_discrete (dedupe_key x) (dedupe_key c)) e) refl)
    apart e ih (inl t) (inr u) = rw (u, ih, t) refl
    apart e ih (inr t) (inl u) = rw (u, ih, t) refl
    apart e ih (inr t) (inr u) = rw (u, ih, t) refl

select-place_each :
    (p : ImportedCookie → Bool) (out cs : List ImportedCookie)
    → Respects p
    → select p (place_each out cs) ≡ place_each (select p out) (select p cs)
unfolding place_each
select-place_each p out [] r = refl
select-place_each p out (c ∷ cs) r = elim (Bool-cases (p c)) [
  | inl t ↦ select-place_each p (place c out) cs r ∙ (rw (select-place p c out r, t) refl)
  | inr f ↦ select-place_each p (place c out) cs r ∙ (rw (select-place p c out r, f) refl)
]

-- Keeping the cookies of some domains and then removing duplicates gives the same as removing
-- duplicates first, whatever `to_lowercase` does.
pub filter_domains-dedupe :
    (to_lowercase : Bytes → Bytes) (cs : List ImportedCookie) (domains : List Bytes)
    → filter_domains to_lowercase (dedupe cs) domains
      ≡ dedupe (filter_domains to_lowercase cs domains)
unfolding filter_domains
filter_domains-dedupe to_lowercase cs [] = refl
filter_domains-dedupe to_lowercase cs (d ∷ ds) =
    let keep : ImportedCookie → Bool =
      λ c. any_in (to_lowercase c.domain) (map to_lowercase (d ∷ ds)) in
    ap (select keep) (dedupe-place_each cs)
    ∙ (select-place_each keep [] cs
          (λ a b e. ap (λ k. any_in (to_lowercase (k.1)) (map to_lowercase (d ∷ ds))) e)
        ∙ sym (dedupe-place_each (select keep cs)))
