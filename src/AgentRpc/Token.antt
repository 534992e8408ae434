-- ===== src/AgentRpc/Token.antt =====
-- src-tauri/src/agent_rpc/auth.rs: how a candidate is compared with the session's secret.
use Prim.Native.Nat.{bit_or, bit_xor, max}
use weftgrid.Base.{
  ℕ, zero, suc, ◌+◌, ◌%◌, ◌≤◌, ◌<◌, ◌≡◌, ◌↔◌, refl, sym, ◌∙◌, subst, ==_iff, dec_lt, Bool, true, [],
  ◌∷◌, arith, ◌==◌, if◌then◌else◌, Bytes, length, get_or, ℕ_discrete, ◌||◌,
}
use weftgrid.Base.Bits.{bit_xor-zero, bit_xor_self, bit_or-zero, zero-bit_or}

-- `diff` after the indices from `i` on, `n` of them
unfoldable pub diff_from : Bytes → Bytes → ℕ → ℕ → ℕ → ℕ
diff_from a b i zero diff = diff
diff_from a b i (suc n) diff =
    diff_from a b (i + 1) n (bit_or diff (bit_xor (get_or a i 0) (get_or b i 0)))

unfoldable pub constant_time_eq : Bytes → Bytes → Bool
unfolding diff_from
constant_time_eq a b =
    diff_from a b 0 (max (length a) (length b)) (bit_xor (length a) (length b) % 256) == 0

pub record SessionToken : Type 0 where
  pub secret : Bytes

unfoldable pub verify : SessionToken → Bytes → Bool
unfolding constant_time_eq
verify token candidate = constant_time_eq token.secret candidate

abbrev is_line_end : ℕ → Bool
is_line_end c = c == 10 || c == 13

-- `trim_end_matches` of line ends: a byte in front of what is left of the rest
unfoldable pub keep_front : ℕ → Bytes → Bytes
keep_front c [] = if is_line_end c then [] else c ∷ []
keep_front c (d ∷ ds) = c ∷ d ∷ ds

-- What `load_token` makes of a file's text.
unfoldable pub load_token : Bytes → Bytes
unfolding keep_front
load_token [] = []
load_token (c ∷ cs) = keep_front c (load_token cs)

diff-zero :
    (a b : Bytes) (i n d : ℕ)
    → diff_from a b i n d ≡ 0
    → (d ≡ 0) × ((k : ℕ) → i ≤ k → k < i + n → get_or a k 0 ≡ get_or b k 0)
unfolding diff_from
diff-zero a b i zero d h = (h, λ k p q. absurd (omega (arith, p, q)))
diff-zero a b i (suc n) d h =
    let rest = diff-zero a b (i + 1) n (bit_or d (bit_xor (get_or a i 0) (get_or b i 0))) h in
    let now = bit_or-zero d (bit_xor (get_or a i 0) (get_or b i 0)) rest.0 in
    (
      now.0,
      λ k p q. elim (ℕ_discrete k i) [
        | yes e ↦ rw e (bit_xor-zero (get_or a i 0) (get_or b i 0) now.1)
        | no e ↦ rest.1 k (omega (arith, e, p)) (omega (arith, q))
      ],
    )

diff-same : (a : Bytes) (i n : ℕ) → diff_from a a i n 0 ≡ 0
unfolding diff_from
diff-same a i zero = refl
diff-same a i (suc n) = rw (bit_xor_self (get_or a i 0), zero-bit_or 0) (diff-same a (i + 1) n)

cons-eq : {x y : ℕ} {xs ys : Bytes} → x ≡ y → xs ≡ ys → x ∷ xs ≡ y ∷ ys
cons-eq h k = cc

same-bytes :
    (a b : Bytes)
    → length a ≡ length b
    → ((k : ℕ) → k < length a → get_or a k 0 ≡ get_or b k 0)
    → a ≡ b
same-bytes [] [] e h = refl
same-bytes [] (y ∷ b) e h = absurd (omega (arith, e))
same-bytes (x ∷ a) [] e h = absurd (omega (arith, e))
same-bytes (x ∷ a) (y ∷ b) e h =
    cons-eq (h 0 (omega arith))
      (same-bytes a b (omega (arith, e)) (λ k p. h (suc k) (omega (arith, p))))

constant_time_eq_sound : (a b : Bytes) → length a ≡ length b → constant_time_eq a b ≡ true → a ≡ b
unfolding constant_time_eq
constant_time_eq_sound a b e h =
    let n = max (length a) (length b) in
    let d = bit_xor (length a) (length b) % 256 in
    let all = diff-zero a b 0 n d ((==_iff (diff_from a b 0 n d) 0).0 h) in
    same-bytes a b e (λ k p. all.1 k (omega arith) (omega (arith, p)))

constant_time_eq_self : (a : Bytes) → constant_time_eq a a ≡ true
unfolding constant_time_eq
constant_time_eq_self a =
    rw (bit_xor_self (length a)) ((==_iff _ 0).1 (diff-same a 0 (max (length a) (length a))))

-- The bytes agree, those that only one has being zero, and the lengths agree in their last eight bits.
abbrev pub IsAccepted : Bytes → Bytes → Type 0
IsAccepted secret candidate =
    ((k : ℕ) → get_or secret k 0 ≡ get_or candidate k 0)
    × (bit_xor (length secret) (length candidate) % 256 ≡ 0)

diff-agree :
    (a b : Bytes) (i n : ℕ) → ((k : ℕ) → get_or a k 0 ≡ get_or b k 0) → diff_from a b i n 0 ≡ 0
unfolding diff_from
diff-agree a b i zero h = refl
diff-agree a b i (suc n) h =
    rw (h i, bit_xor_self (get_or b i 0), zero-bit_or 0) (diff-agree a b (i + 1) n h)

get_or-beyond : (a : Bytes) (k : ℕ) → length a ≤ k → get_or a k 0 ≡ 0
get_or-beyond [] k h = refl
get_or-beyond (x ∷ a) zero h = absurd (omega (arith, h))
get_or-beyond (x ∷ a) (suc k) h = get_or-beyond a k (omega (arith, h))

-- The candidates that a token accepts.
pub verify_accepts :
    (token : SessionToken) (candidate : Bytes)
    → (verify token candidate ≡ true) ↔ IsAccepted token.secret candidate
unfolding verify constant_time_eq
verify_accepts token candidate =
    let a = token.secret in
    let n = max (length a) (length candidate) in
    let d = bit_xor (length a) (length candidate) % 256 in
    (
      λ h.
          let all = diff-zero a candidate 0 n d ((==_iff (diff_from a candidate 0 n d) 0).0 h) in
          (
            λ k. elim (dec_lt k n) [
              | yes p ↦ all.1 k (omega arith) (omega (arith, p))
              | no p ↦
                  get_or-beyond a k (omega (arith, p))
                  ∙ sym (get_or-beyond candidate k (omega (arith, p)))
            ],
            all.0,
          ),
      λ h. rw (h.1) ((==_iff _ 0).1 (diff-agree a candidate 0 n h.0)),
    )

-- A token accepts its own secret, and no other candidate of the same length.
pub verify_iff :
    (token : SessionToken) (candidate : Bytes)
    → length token.secret ≡ length candidate
    → (verify token candidate ≡ true) ↔ (token.secret ≡ candidate)
unfolding verify
verify_iff token candidate e = (
  constant_time_eq_sound token.secret candidate e,
  λ same.
      subst (λ c. constant_time_eq token.secret c ≡ true) same (constant_time_eq_self token.secret),
)
