-- ===== src/Config/Sha256/Streaming.antt =====
-- Hashing in parts, and the blocks of the last step.
use weftgrid.Base.{
  ℕ, zero, suc, ◌+◌, ◌-◌, ◌*◌, ◌/◌, ◌%◌, ◌^◌, ◌≤◌, ◌<◌, ◌≡◌, refl, sym, ap, ◌∙◌, true, false, [],
  ◌∷◌, ◌++◌, arith, leb, leb→le, ◌==◌, Bytes, length, take, drop, length-append, length-drop,
  append_assoc, Bool-cases, inl, inr,
}
use weftgrid.Config.Sha256.{Words, Sha256, process, drain, update, pad, be_bytes, padded}

no_block : (n : ℕ) → n ≤ 0 → leb 64 n ≡ false
no_block n h = ground (arith, h)

-- Any fuel from the length on gives the same result.
drain-fuel :
    (m n : ℕ) (s : Words) (buf : Bytes)
    → length buf ≤ m
    → length buf ≤ n
    → drain m s buf ≡ drain n s buf
unfolding drain
drain-fuel zero zero s buf h k = refl
drain-fuel zero (suc n) s buf h k = rw (no_block (length buf) h) refl
drain-fuel (suc m) zero s buf h k = rw (no_block (length buf) k) refl
drain-fuel (suc m) (suc n) s buf h k = elim (Bool-cases (leb 64 (length buf))) [
  | inl e ↦
      let l = length-drop 64 buf in
      let le = leb→le 64 (length buf) e in
      rw e (
        drain-fuel m n (process s (take 64 buf)) (drop 64 buf) (omega (arith, l, le, h))
          (omega (arith, l, le, k)))
  | inr e ↦ rw e refl
]

take-append : (n : ℕ) (xs ys : Bytes) → n ≤ length xs → take n (xs ++ ys) ≡ take n xs
take-append zero xs ys h = refl
take-append (suc n) [] ys h = ground (arith, h)
take-append (suc n) (x ∷ xs) ys h = ap (◌∷◌ x) (take-append n xs ys (omega (arith, h)))

drop-append : (n : ℕ) (xs ys : Bytes) → n ≤ length xs → drop n (xs ++ ys) ≡ drop n xs ++ ys
drop-append zero xs ys h = refl
drop-append (suc n) [] ys h = ground (arith, h)
drop-append (suc n) (x ∷ xs) ys h = drop-append n xs ys (omega (arith, h))

-- The whole blocks of a buffer, and what is left of it.
abbrev pub blocks : Words → Bytes → Words × Bytes
blocks s buf = drain (length buf) s buf

drain-step :
    (n : ℕ) (s : Words) (buf : Bytes)
    → leb 64 (length buf) ≡ true
    → drain (suc n) s buf ≡ drain n (process s (take 64 buf)) (drop 64 buf)
unfolding drain
drain-step n s buf e = rw e refl

drain-eq :
    (n : ℕ) (s : Words) {b c xs ys : Bytes}
    → b ≡ c
    → xs ≡ ys
    → drain n (process s b) xs ≡ drain n (process s c) ys
drain-eq n s h k = cc

blocks-step :
    (s : Words) (xs ys : Bytes)
    → leb 64 (length xs) ≡ true
    → blocks s (xs ++ ys) ≡ blocks (process s (take 64 xs)) (drop 64 xs ++ ys)
blocks-step s xs ys e =
    let le = leb→le 64 (length xs) e in
    let all = length-append xs ys in
    let full : leb 64 (length (xs ++ ys)) ≡ true = ground (arith, le, all) in
    let n = length (xs ++ ys) in
    drain-fuel n (suc n) s (xs ++ ys) (omega arith) (omega arith)
    ∙ drain-step n s (xs ++ ys) full
    ∙ drain-eq n s (take-append 64 xs ys le) (drop-append 64 xs ys le)
    ∙ drain-fuel n (length (drop 64 xs ++ ys)) (process s (take 64 xs)) (drop 64 xs ++ ys)
        (omega (arith, length-append (drop 64 xs) ys, length-drop 64 xs, all, le)) (omega arith)

drain-append :
    (n : ℕ) (s : Words) (xs ys : Bytes)
    → length xs ≤ n
    → blocks (drain n s xs).0 ((drain n s xs).1 ++ ys) ≡ blocks s (xs ++ ys)
unfolding drain
drain-append zero s xs ys h = refl
drain-append (suc n) s xs ys h = elim (Bool-cases (leb 64 (length xs))) [
  | inl e ↦
      let le = leb→le 64 (length xs) e in
      rw (drain-step n s xs e) (
        drain-append n (process s (take 64 xs)) (drop 64 xs) ys
          (omega (arith, length-drop 64 xs, le, h))
        ∙ sym (blocks-step s xs ys e))
  | inr e ↦ rw e refl
]

hash-eq :
    {p q : Words × Bytes} {m n : ℕ}
    → p ≡ q
    → m ≡ n
    → ◌≡◌ {A = Sha256}
        (record { state = p.0; buf = p.1; len = m })
        (record { state = q.0; buf = q.1; len = n })
hash-eq h k = cc

-- A hash that is fed in two parts is in the state of one that is fed both at once, wherever the parts
-- are cut.
pub update-append : (h : Sha256) (xs ys : Bytes) → update (update h xs) ys ≡ update h (xs ++ ys)
unfolding update
update-append h xs ys =
    let buf = h.buf ++ xs in
    hash-eq
      (drain-append (length buf) h.state buf ys (omega arith)
        ∙ ap (blocks h.state) (append_assoc h.buf xs ys))
      (omega (arith, length-append xs ys))

pad_left :
    {m : ℕ} (n fuel : ℕ)
    → n % 64 == 56 ≡ false
    → (120 - n % 64) % 64 < suc fuel
    → m ≡ n + 1
    → (120 - m % 64) % 64 < fuel
pad_left n fuel e h l = ground (arith, e, h, l)

-- The length of a text after `pad`.
pad-full :
    (fuel : ℕ) (buf : Bytes) → (120 - length buf % 64) % 64 < fuel → length (pad fuel buf) % 64 ≡ 56
unfolding pad
pad-full zero buf h = ground (arith, h)
pad-full (suc fuel) buf h = elim (Bool-cases (length buf % 64 == 56)) [
  | inl e ↦ rw e (ground (arith, e))
  | inr e ↦
      rw e (
        pad-full fuel (buf ++ 0 ∷ []) (pad_left (length buf) fuel e h (length-append buf (0 ∷ []))))
]

length-be_bytes : (n x : ℕ) (rest : Bytes) → length (be_bytes n x rest) ≡ n + length rest
unfolding be_bytes
length-be_bytes zero x rest = omega arith
length-be_bytes (suc n) x rest = omega (arith, length-be_bytes n (x / 256) (x % 256 ∷ rest))

-- The padded message is made of whole blocks, so that the last step hashes all of it.
pub padded-blocks : (h : Sha256) → length (padded h) % 64 ≡ 0
unfolding padded
padded-blocks h =
    let text = h.buf ++ 0x80 ∷ [] in
    let full = pad-full 64 text (omega arith) in
    let all = length-append (pad 64 text) (be_bytes 8 (h.len * 8 % 2 ^ 64) []) in
    omega (arith, full, all, length-be_bytes 8 (h.len * 8 % 2 ^ 64) [])
