-- ===== src/Base/Bits/Fields.antt =====
-- `|` of fields that stand at different places is a sum.
use Prim.Native.Nat.{ℕ, zero, suc, ◌+◌, ◌*◌, ◌/◌, ◌^◌, ◌<◌, bit_or, bit_and, bit_or-bitwise}
use mathlib.Core.Path.{◌≡◌, refl, ap}
use native.Mathlib.Nat.{one-le-pow}
use native.Mathlib.Omega.{arith}
use mini_visor.Base.Bits.Pow.{two_pow_suc}
use mini_visor.Base.Bits.Digit.{bit_or_digit, bit_and_digit}

bit_or-zero_below : (n a : ℕ) → a < n → bit_or a 0 ≡ a
bit_or-zero_below zero a p = elim p [ ]
bit_or-zero_below (suc n) zero p = refl
bit_or-zero_below (suc n) (suc a) p =
    omega (arith, bit_or_digit (suc a) 0, bit_or-zero_below n (suc a / 2) (omega arith))

pub bit_or-zero : (a : ℕ) → bit_or a 0 ≡ a
bit_or-zero a = bit_or-zero_below (suc a) a (omega arith)

pub zero-bit_or : (a : ℕ) → bit_or 0 a ≡ a
zero-bit_or a = bit_or-bitwise 0 a

double_field : (q k : ℕ) → q * 2 ^ suc k ≡ 2 * (q * 2 ^ k)
double_field q k = omega (arith, ap (λ (t : ℕ). q * t) (two_pow_suc k))

-- The two parts of each number meet separately.
pub bit_or_chunk :
    (k q r q' r' : ℕ)
    → r < 2 ^ k
    → r' < 2 ^ k
    → bit_or (q * 2 ^ k + r) (q' * 2 ^ k + r') ≡ bit_or q q' * 2 ^ k + bit_or r r'
bit_or_chunk zero q zero q' zero p p' = ground arith
bit_or_chunk zero q zero q' (suc r') p p' = absurd (omega arith)
bit_or_chunk zero q (suc r) q' r' p p' = absurd (omega arith)
bit_or_chunk (suc k) q r q' r' p p' = ground (
  arith,
  bit_or_digit (q * 2 ^ suc k + r) (q' * 2 ^ suc k + r'),
  bit_or_digit r r',
  double_field q k,
  double_field q' k,
  double_field (bit_or q q') k,
  two_pow_suc k,
  bit_or_chunk k q (r / 2) q' (r' / 2),
)

-- A field above `k` bits, and what fits below it.
pub bit_or_fields : (k q r : ℕ) → r < 2 ^ k → bit_or (q * 2 ^ k) r ≡ q * 2 ^ k + r
bit_or_fields k q r p =
    ground (arith, bit_or_chunk k q 0 0 r, bit_or-zero q, zero-bit_or r, one-le-pow k 2)

pub bit_and_chunk :
    (k q r q' r' : ℕ)
    → r < 2 ^ k
    → r' < 2 ^ k
    → bit_and (q * 2 ^ k + r) (q' * 2 ^ k + r') ≡ bit_and q q' * 2 ^ k + bit_and r r'
bit_and_chunk zero q zero q' zero p p' = ground arith
bit_and_chunk zero q zero q' (suc r') p p' = absurd (omega arith)
bit_and_chunk zero q (suc r) q' r' p p' = absurd (omega arith)
bit_and_chunk (suc k) q r q' r' p p' = ground (
  arith,
  bit_and_digit (q * 2 ^ suc k + r) (q' * 2 ^ suc k + r'),
  bit_and_digit r r',
  double_field q k,
  double_field q' k,
  double_field (bit_and q q') k,
  two_pow_suc k,
  bit_and_chunk k q (r / 2) q' (r' / 2),
)
