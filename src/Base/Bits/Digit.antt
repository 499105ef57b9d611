-- ===== src/Base/Bits/Digit.antt =====
-- The native `bit_or` and `bit_and` mean a recursion on binary digits with fuel. Here the fuel is
-- dropped: one equation for the lowest digit of each.
use Prim.Native.Nat.{
  ℕ, zero, suc, ◌+◌, ◌*◌, ◌/◌, ◌%◌, ◌≤◌, min, max, bit_and, bit_or, digits, bit_and-bitwise,
  bit_or-bitwise,
}
use mathlib.Core.Path.{◌≡◌, refl}
use native.Mathlib.Omega.{arith}

module _ (rest : ℕ → ℕ) (join : ℕ → ℕ → ℕ) where
  -- More fuel than the first number changes nothing.
  enough_fuel : (m n x y : ℕ) → x ≤ m → x ≤ n → digits rest join m x y ≡ digits rest join n x y
  enough_fuel zero zero x y p q = refl
  enough_fuel zero (suc n) zero y p q = refl
  enough_fuel zero (suc n) (suc x) y p q = elim p [ ]
  enough_fuel (suc m) zero zero y p q = refl
  enough_fuel (suc m) zero (suc x) y p q = elim q [ ]
  enough_fuel (suc m) (suc n) zero y p q = refl
  enough_fuel (suc m) (suc n) (suc x) y p q =
      omega (arith, enough_fuel m n (suc x / 2) (y / 2) (omega arith) (omega arith))

pub bit_or_digit : (x y : ℕ) → bit_or x y ≡ 2 * bit_or (x / 2) (y / 2) + max (x % 2) (y % 2)
bit_or_digit zero y = omega (arith, bit_or-bitwise 0 y, bit_or-bitwise 0 (y / 2))
bit_or_digit (suc x) y = omega (
  arith,
  bit_or-bitwise (suc x) y,
  bit_or-bitwise (suc x / 2) (y / 2),
  enough_fuel (λ b. b) max x (suc x / 2) (suc x / 2) (y / 2) (omega arith) (omega arith),
)

pub bit_and_digit : (x y : ℕ) → bit_and x y ≡ 2 * bit_and (x / 2) (y / 2) + min (x % 2) (y % 2)
bit_and_digit zero y = omega (arith, bit_and-bitwise 0 y, bit_and-bitwise 0 (y / 2))
bit_and_digit (suc x) y = omega (
  arith,
  bit_and-bitwise (suc x) y,
  bit_and-bitwise (suc x / 2) (y / 2),
  enough_fuel (λ b. 0) min x (suc x / 2) (suc x / 2) (y / 2) (omega arith) (omega arith),
)
