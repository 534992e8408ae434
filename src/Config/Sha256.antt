-- ===== src/Config/Sha256.antt =====
-- src-tauri/src/config/weft_trust.rs: `Sha256`. A word is a number below 2 ^ 32.
pub mod Streaming
use Prim.Native.Nat.{bit_and, bit_xor}
use weftgrid.Base.{
  ℕ, zero, suc, ◌+◌, ◌-◌, ◌*◌, ◌/◌, ◌%◌, ◌^◌, Bool, true, false, List, [], ◌∷◌, ◌++◌, ltb, leb,
  ◌==◌, if◌then◌else◌, Bytes, length, take, drop, get_or,
}

pub record Words : Type 0 where
  pub a : ℕ
  pub b : ℕ
  pub c : ℕ
  pub d : ℕ
  pub e : ℕ
  pub f : ℕ
  pub g : ℕ
  pub h : ℕ

pub record Sha256 : Type 0 where
  pub state : Words
  pub buf : Bytes
  pub len : ℕ

abbrev initial : Words
initial = record {
  a = 0x6a09e667;
  b = 0xbb67ae85;
  c = 0x3c6ef372;
  d = 0xa54ff53a;
  e = 0x510e527f;
  f = 0x9b05688c;
  g = 0x1f83d9ab;
  h = 0x5be0cd19;
}

abbrev pub new : Sha256
new = record { state = initial; buf = []; len = 0 }

abbrev k_words : List ℕ
k_words =
    0x428a2f98 ∷ 0x71374491 ∷ 0xb5c0fbcf ∷ 0xe9b5dba5 ∷ 0x3956c25b ∷ 0x59f111f1 ∷ 0x923f82a4
    ∷ 0xab1c5ed5 ∷ 0xd807aa98 ∷ 0x12835b01 ∷ 0x243185be ∷ 0x550c7dc3 ∷ 0x72be5d74 ∷ 0x80deb1fe
    ∷ 0x9bdc06a7 ∷ 0xc19bf174 ∷ 0xe49b69c1 ∷ 0xefbe4786 ∷ 0x0fc19dc6 ∷ 0x240ca1cc ∷ 0x2de92c6f
    ∷ 0x4a7484aa ∷ 0x5cb0a9dc ∷ 0x76f988da ∷ 0x983e5152 ∷ 0xa831c66d ∷ 0xb00327c8 ∷ 0xbf597fc7
    ∷ 0xc6e00bf3 ∷ 0xd5a79147 ∷ 0x06ca6351 ∷ 0x14292967 ∷ 0x27b70a85 ∷ 0x2e1b2138 ∷ 0x4d2c6dfc
    ∷ 0x53380d13 ∷ 0x650a7354 ∷ 0x766a0abb ∷ 0x81c2c92e ∷ 0x92722c85 ∷ 0xa2bfe8a1 ∷ 0xa81a664b
    ∷ 0xc24b8b70 ∷ 0xc76c51a3 ∷ 0xd192e819 ∷ 0xd6990624 ∷ 0xf40e3585 ∷ 0x106aa070 ∷ 0x19a4c116
    ∷ 0x1e376c08 ∷ 0x2748774c ∷ 0x34b0bcb5 ∷ 0x391c0cb3 ∷ 0x4ed8aa4a ∷ 0x5b9cca4f ∷ 0x682e6ff3
    ∷ 0x748f82ee ∷ 0x78a5636f ∷ 0x84c87814 ∷ 0x8cc70208 ∷ 0x90befffa ∷ 0xa4506ceb ∷ 0xbef9a3f7
    ∷ 0xc67178f2 ∷ []

wrapping_add : ℕ → ℕ → ℕ
wrapping_add m n = (m + n) % 2 ^ 32

rotate_right : ℕ → ℕ → ℕ
rotate_right x n = x / 2 ^ n + x * 2 ^ (32 - n) % 2 ^ 32

xor3 : ℕ → ℕ → ℕ → ℕ
xor3 x y z = bit_xor (bit_xor x y) z

-- `n` further words in front of those there are; the last one computed comes first.
extend : ℕ → List ℕ → List ℕ
unfolding wrapping_add rotate_right xor3
extend zero ws = ws
extend (suc n) ws =
    let w15 = get_or ws 14 0 in
    let w2 = get_or ws 1 0 in
    let s0 = xor3 (rotate_right w15 7) (rotate_right w15 18) (w15 / 2 ^ 3) in
    let s1 = xor3 (rotate_right w2 17) (rotate_right w2 19) (w2 / 2 ^ 10) in
    extend n
      (wrapping_add (wrapping_add (wrapping_add (get_or ws 15 0) s0) (get_or ws 6 0)) s1 ∷ ws)

-- The big-endian words of the bytes, the last one first, in front of `ws`.
be_words : Bytes → List ℕ → List ℕ
be_words (p ∷ q ∷ r ∷ s ∷ rest) ws = be_words rest ((((p * 256 + q) * 256 + r) * 256 + s) ∷ ws)
be_words _ ws = ws

reverse_onto : List ℕ → List ℕ → List ℕ
reverse_onto [] ys = ys
reverse_onto (x ∷ xs) ys = reverse_onto xs (x ∷ ys)

round : Words → ℕ → ℕ → Words
unfolding wrapping_add rotate_right xor3
round v k w =
    let s1 = xor3 (rotate_right v.e 6) (rotate_right v.e 11) (rotate_right v.e 25) in
    let ch = bit_xor (bit_and v.e v.f) (bit_and (2 ^ 32 - 1 - v.e) v.g) in
    let t1 = wrapping_add (wrapping_add (wrapping_add (wrapping_add v.h s1) ch) k) w in
    let s0 = xor3 (rotate_right v.a 2) (rotate_right v.a 13) (rotate_right v.a 22) in
    let maj = xor3 (bit_and v.a v.b) (bit_and v.a v.c) (bit_and v.b v.c) in
    let t2 = wrapping_add s0 maj in
    record {
      a = wrapping_add t1 t2;
      b = v.a;
      c = v.b;
      d = v.c;
      e = wrapping_add v.d t1;
      f = v.e;
      g = v.f;
      h = v.g;
    }

rounds : Words → List ℕ → List ℕ → Words
unfolding round
rounds v (k ∷ ks) (w ∷ ws) = rounds (round v k w) ks ws
rounds v _ _ = v

-- The new state after one block of 64 bytes.
unfoldable pub process : Words → Bytes → Words
unfolding extend be_words reverse_onto rounds wrapping_add
process s block =
    let w = reverse_onto (extend 48 (be_words block [])) [] in
    let v = rounds s k_words w in
    record {
      a = wrapping_add s.a v.a;
      b = wrapping_add s.b v.b;
      c = wrapping_add s.c v.c;
      d = wrapping_add s.d v.d;
      e = wrapping_add s.e v.e;
      f = wrapping_add s.f v.f;
      g = wrapping_add s.g v.g;
      h = wrapping_add s.h v.h;
    }

-- The loop that takes whole blocks off the buffer, on fuel.
unfoldable pub drain : ℕ → Words → Bytes → Words × Bytes
unfolding process
drain zero s buf = (s, buf)
drain (suc fuel) s buf =
    let rest = drain fuel (process s (take 64 buf)) (drop 64 buf) in
    if leb 64 (length buf) then rest else (s, buf)

-- The loop runs at most once for each byte.
unfoldable pub update : Sha256 → Bytes → Sha256
unfolding drain
update h bytes = record {
  state = (drain (length (h.buf ++ bytes)) h.state (h.buf ++ bytes)).0;
  buf = (drain (length (h.buf ++ bytes)) h.state (h.buf ++ bytes)).1;
  len = (h.len + length bytes) % 2 ^ 64;
}

-- The loop that pads the buffer with zeros until its length is 56 modulo 64, on fuel.
unfoldable pub pad : ℕ → Bytes → Bytes
pad zero buf = buf
pad (suc fuel) buf =
    let rest = pad fuel (buf ++ 0 ∷ []) in if length buf % 64 == 56 then buf else rest

-- The `n` last bytes of a number, big-endian, in front of a text.
unfoldable pub be_bytes : ℕ → ℕ → Bytes → Bytes
be_bytes zero x rest = rest
be_bytes (suc n) x rest = be_bytes n (x / 256) (x % 256 ∷ rest)

-- `chunks` whole blocks of a buffer.
unfoldable pub process_all : ℕ → Words → Bytes → Words
unfolding process
process_all zero s buf = s
process_all (suc n) s buf = process_all n (process s (take 64 buf)) (drop 64 buf)

unfoldable pub padded : Sha256 → Bytes
unfolding pad be_bytes
padded h = pad 64 (h.buf ++ 0x80 ∷ []) ++ be_bytes 8 (h.len * 8 % 2 ^ 64) []

unfoldable pub finalize : Sha256 → Bytes
unfolding padded process_all be_bytes
finalize h =
    let v = process_all (length (padded h) / 64) h.state (padded h) in
    be_bytes 4 v.a (
      be_bytes 4 v.b (
        be_bytes 4 v.c
          (be_bytes 4 v.d (be_bytes 4 v.e (be_bytes 4 v.f (be_bytes 4 v.g (be_bytes 4 v.h [])))))))
