-- ===== src/Prelude/Xor.antt =====
-- Exclusive or, digit by digit: it has a law for the lowest digit, keeps a bound, and can be undone.
use Prim.Native.Nat.{
  ℕ, zero, suc, ◌+◌, ◌*◌, ◌/◌, ◌%◌, ◌^◌, ◌≤◌, ◌<◌, bit_xor, digits, differ, bit_xor-bitwise,
}
use mathlib.Core.Path.{◌≡◌, refl}
use native.Mathlib.Omega.{arith}

abbrev xor_digits : ℕ → ℕ → ℕ → ℕ
xor_digits n a b = digits (λ b. b) differ n a b

xor_digits_fuel : (n m a b : ℕ) → a ≤ n → a ≤ m → xor_digits n a b ≡ xor_digits m a b
xor_digits_fuel zero zero a b p q = refl
xor_digits_fuel zero (suc m) zero b p q = refl
xor_digits_fuel zero (suc m) (suc a) b p q = absurd (omega arith)
xor_digits_fuel (suc n) zero zero b p q = refl
xor_digits_fuel (suc n) zero (suc a) b p q = absurd (omega arith)
xor_digits_fuel (suc n) (suc m) zero b p q = refl
xor_digits_fuel (suc n) (suc m) (suc a) b p q =
    omega (arith, xor_digits_fuel n m (suc a / 2) (b / 2) (omega arith) (omega arith))

differ_lem : (x y : ℕ) → x < 2 → y < 2 → differ x y ≡ (x + y) % 2
differ_lem zero y p q = omega arith
differ_lem (suc zero) zero p q = refl
differ_lem (suc zero) (suc zero) p q = refl
differ_lem (suc zero) (suc (suc y)) p q = absurd (omega arith)
differ_lem (suc (suc x)) y p q = absurd (omega arith)

zero-bit_xor : (b : ℕ) → bit_xor 0 b ≡ b
zero-bit_xor b = bit_xor-bitwise 0 b

bit_xor_step : (a b : ℕ) → bit_xor a b ≡ bit_xor (a / 2) (b / 2) * 2 + (a % 2 + b % 2) % 2
bit_xor_step zero b = omega (arith, zero-bit_xor b, zero-bit_xor (b / 2))
bit_xor_step (suc a) b = omega (
  arith,
  bit_xor-bitwise (suc a) b,
  bit_xor-bitwise (suc a / 2) (b / 2),
  xor_digits_fuel a (suc a / 2) (suc a / 2) (b / 2) (omega arith) (omega arith),
  differ_lem (suc a % 2) (b % 2) (omega arith) (omega arith),
)

-- The first number can be had back.
bit_xor-left_fuel : (n a b v : ℕ) → a ≤ n → b ≤ n → bit_xor a v ≡ bit_xor b v → a ≡ b
bit_xor-left_fuel zero a b v p q h = omega arith
bit_xor-left_fuel (suc n) a b v p q h =
    let halves : bit_xor (a / 2) (v / 2) ≡ bit_xor (b / 2) (v / 2) =
      omega (arith, h, bit_xor_step a v, bit_xor_step b v) in
    let same =
      bit_xor-left_fuel n (a / 2) (b / 2) (v / 2) (omega (arith, p)) (omega (arith, q)) halves in
    omega (arith, h, same, halves, bit_xor_step a v, bit_xor_step b v)

pub bit_xor-left : (a b v : ℕ) → bit_xor a v ≡ bit_xor b v → a ≡ b
bit_xor-left a b v h = bit_xor-left_fuel (a + b) a b v (omega arith) (omega arith) h

-- And so can the second.
bit_xor-right_fuel : (n a v w : ℕ) → a ≤ n → bit_xor a v ≡ bit_xor a w → v ≡ w
bit_xor-right_fuel zero zero v w p h = omega (arith, zero-bit_xor v, zero-bit_xor w, h)
bit_xor-right_fuel zero (suc a) v w p h = absurd (omega arith)
bit_xor-right_fuel (suc n) a v w p h =
    let halves : bit_xor (a / 2) (v / 2) ≡ bit_xor (a / 2) (w / 2) =
      omega (arith, h, bit_xor_step a v, bit_xor_step a w) in
    let same = bit_xor-right_fuel n (a / 2) (v / 2) (w / 2) (omega (arith, p)) halves in
    omega (arith, h, same, halves, bit_xor_step a v, bit_xor_step a w)

pub bit_xor-right : (a v w : ℕ) → bit_xor a v ≡ bit_xor a w → v ≡ w
bit_xor-right a v w h = bit_xor-right_fuel a a v w (omega arith) h

pub bit_xor-bound : (k a b : ℕ) → a < 2 ^ k → b < 2 ^ k → bit_xor a b < 2 ^ k
bit_xor-bound zero zero b p q = omega (arith, zero-bit_xor b, q)
bit_xor-bound zero (suc a) b p q = absurd (omega (arith, p))
bit_xor-bound (suc k) a b p q =
    let below = bit_xor-bound k (a / 2) (b / 2) (omega (arith, p)) (omega (arith, q)) in
    omega (arith, below, bit_xor_step a b)
