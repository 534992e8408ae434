-- ===== src/Base/Bits.antt =====
-- Exclusive or and or of numbers, where the result is 0.
use Prim.Native.Nat.{
  ℕ, zero, suc, ◌+◌, ◌*◌, ◌/◌, ◌%◌, ◌≤◌, max, bit_or, bit_xor, digits, differ, bit_or-bitwise,
  bit_xor-bitwise,
}
use mathlib.Core.Path.{◌≡◌, refl}
use native.Mathlib.Omega.{arith}

-- The digits of an operation that keeps the second number once the first has run out.
abbrev joined : (ℕ → ℕ → ℕ) → ℕ → ℕ → ℕ → ℕ
joined f n a b = digits (λ b. b) f n a b

joined_fuel : (f : ℕ → ℕ → ℕ) (n m a b : ℕ) → a ≤ n → a ≤ m → joined f n a b ≡ joined f m a b
joined_fuel f zero zero a b p q = refl
joined_fuel f zero (suc m) zero b p q = refl
joined_fuel f zero (suc m) (suc a) b p q = absurd (omega arith)
joined_fuel f (suc n) zero zero b p q = refl
joined_fuel f (suc n) zero (suc a) b p q = absurd (omega arith)
joined_fuel f (suc n) (suc m) zero b p q = refl
joined_fuel f (suc n) (suc m) (suc a) b p q =
    omega (arith, joined_fuel f n m (suc a / 2) (b / 2) (omega arith) (omega arith))

pub zero-bit_xor : (b : ℕ) → bit_xor 0 b ≡ b
zero-bit_xor b = bit_xor-bitwise 0 b

pub zero-bit_or : (b : ℕ) → bit_or 0 b ≡ b
zero-bit_or b = bit_or-bitwise 0 b

bit_xor_step :
    (a b : ℕ) → bit_xor (suc a) b ≡ bit_xor (suc a / 2) (b / 2) * 2 + differ (suc a % 2) (b % 2)
bit_xor_step a b = omega (
  arith,
  bit_xor-bitwise (suc a) b,
  bit_xor-bitwise (suc a / 2) (b / 2),
  joined_fuel differ a (suc a / 2) (suc a / 2) (b / 2) (omega arith) (omega arith),
)

bit_or_step :
    (a b : ℕ) → bit_or (suc a) b ≡ bit_or (suc a / 2) (b / 2) * 2 + max (suc a % 2) (b % 2)
bit_or_step a b = omega (
  arith,
  bit_or-bitwise (suc a) b,
  bit_or-bitwise (suc a / 2) (b / 2),
  joined_fuel max a (suc a / 2) (suc a / 2) (b / 2) (omega arith) (omega arith),
)

differ-zero : (x y : ℕ) → differ x y ≡ 0 → x ≡ y
differ-zero zero y h = omega (arith, h)
differ-zero (suc x) zero h = absurd (omega (arith, h))
differ-zero (suc x) (suc y) h = omega (arith, differ-zero x y h)

differ_self : (x : ℕ) → differ x x ≡ 0
differ_self zero = refl
differ_self (suc x) = differ_self x

bit_xor-zero_fuel : (n a b : ℕ) → a ≤ n → bit_xor a b ≡ 0 → a ≡ b
bit_xor-zero_fuel n zero b h e = omega (arith, e, zero-bit_xor b)
bit_xor-zero_fuel zero (suc a) b h e = absurd (omega (arith, h))
bit_xor-zero_fuel (suc n) (suc a) b h e =
    let step = bit_xor_step a b in
    let high =
      bit_xor-zero_fuel n (suc a / 2) (b / 2) (omega (arith, h)) (omega (arith, step, e)) in
    let low = differ-zero (suc a % 2) (b % 2) (omega (arith, step, e)) in omega (arith, high, low)

pub bit_xor-zero : (a b : ℕ) → bit_xor a b ≡ 0 → a ≡ b
bit_xor-zero a b = bit_xor-zero_fuel a a b (omega arith)

bit_xor_self_fuel : (n a : ℕ) → a ≤ n → bit_xor a a ≡ 0
bit_xor_self_fuel n zero h = zero-bit_xor 0
bit_xor_self_fuel zero (suc a) h = absurd (omega (arith, h))
bit_xor_self_fuel (suc n) (suc a) h = omega (
  arith,
  bit_xor_step a (suc a),
  bit_xor_self_fuel n (suc a / 2) (omega (arith, h)),
  differ_self (suc a % 2),
)

pub bit_xor_self : (a : ℕ) → bit_xor a a ≡ 0
bit_xor_self a = bit_xor_self_fuel a a (omega arith)

bit_or-zero_fuel : (n a b : ℕ) → a ≤ n → bit_or a b ≡ 0 → (a ≡ 0) × (b ≡ 0)
bit_or-zero_fuel n zero b h e = (refl, omega (arith, e, zero-bit_or b))
bit_or-zero_fuel zero (suc a) b h e = absurd (omega (arith, h))
bit_or-zero_fuel (suc n) (suc a) b h e =
    let step = bit_or_step a b in
    let high = bit_or-zero_fuel n (suc a / 2) (b / 2) (omega (arith, h)) (omega (arith, step, e)) in
    absurd (omega (arith, high.0, step, e))

pub bit_or-zero : (a b : ℕ) → bit_or a b ≡ 0 → (a ≡ 0) × (b ≡ 0)
bit_or-zero a b = bit_or-zero_fuel a a b (omega arith)
