-- ===== src/Common/Bits.antt =====
-- Laws of `bit_xor`.
use Prim.Native.Nat.{
  ℕ, zero, suc, ◌+◌, ◌*◌, ◌/◌, ◌%◌, ◌^◌, ◌≤◌, ◌<◌, bit_xor, digits, differ, bit_xor-bitwise,
}
use mathlib.Core.Path.{◌≡◌, refl}
use native.Mathlib.Omega.{arith}

abbrev xor_digits : ℕ → ℕ → ℕ → ℕ
xor_digits n a b = digits (λ b. b) differ n a b

-- More fuel than the number has digits changes nothing.
xor_digits_fuel : (n m a b : ℕ) → a ≤ n → a ≤ m → xor_digits n a b ≡ xor_digits m a b
xor_digits_fuel zero zero a b p q = refl
xor_digits_fuel zero (suc m) zero b p q = refl
xor_digits_fuel zero (suc m) (suc a) b p q = absurd (omega arith)
xor_digits_fuel (suc n) zero zero b p q = refl
xor_digits_fuel (suc n) zero (suc a) b p q = absurd (omega arith)
xor_digits_fuel (suc n) (suc m) zero b p q = refl
xor_digits_fuel (suc n) (suc m) (suc a) b p q =
    omega (arith, xor_digits_fuel n m (suc a / 2) (b / 2) (omega arith) (omega arith))

zero-bit_xor : (b : ℕ) → bit_xor 0 b ≡ b
zero-bit_xor b = bit_xor-bitwise 0 b

-- The lowest digit, and the others.
bit_xor_step : (a b : ℕ) → bit_xor a b ≡ bit_xor (a / 2) (b / 2) * 2 + differ (a % 2) (b % 2)
bit_xor_step zero b = omega (arith, zero-bit_xor b, zero-bit_xor (b / 2))
bit_xor_step (suc a) b = omega (
  arith,
  bit_xor-bitwise (suc a) b,
  bit_xor-bitwise (suc a / 2) (b / 2),
  xor_digits_fuel a (suc a / 2) (suc a / 2) (b / 2) (omega arith) (omega arith),
)

differ_bits : (x y : ℕ) → x < 2 → y < 2 → (differ x y < 2) × (differ x y ≡ 0 → x ≡ y)
differ_bits zero y h k = (k, λ e. omega (arith, e))
differ_bits (suc zero) zero h k = (omega arith, λ e. omega (arith, e))
differ_bits (suc zero) (suc zero) h k = (omega arith, λ e. refl)
differ_bits (suc zero) (suc (suc y)) h k = absurd (omega arith)
differ_bits (suc (suc x)) y h k = absurd (omega arith)

-- Of two numbers of some width, the exclusive or has the width, and it is 0 only if they are the same.
pub bit_xor_bounds :
    (w a b : ℕ) → a < 2 ^ w → b < 2 ^ w → (bit_xor a b < 2 ^ w) × (bit_xor a b ≡ 0 → a ≡ b)
bit_xor_bounds zero a b h k =
    let a0 : a ≡ 0 = omega arith in
    let b0 : b ≡ 0 = omega arith in
    (rw (a0, b0) (omega (arith, zero-bit_xor 0)), λ e. omega (arith, a0, b0))
bit_xor_bounds (suc w) a b h k =
    let (low, same_low) = differ_bits (a % 2) (b % 2) (omega arith) (omega arith) in
    let (high, same_high) =
      bit_xor_bounds w (a / 2) (b / 2) (omega (arith, h)) (omega (arith, k)) in
    (
      omega (arith, bit_xor_step a b, low, high),
      λ e.
          let x = same_low (omega (arith, bit_xor_step a b, e)) in
          let y = same_high (omega (arith, bit_xor_step a b, e)) in omega (arith, x, y),
    )
