-- ===== src/Base/Bits.antt =====
-- Bit by bit: what `|`, `&` and `!` do to one bit, and what that says of the whole number.
mod Digit
pub mod Pow
pub mod Fields
use Digit.{bit_or_digit, bit_and_digit}
use Pow.{two_pow_suc}
use native.Mathlib.Nat.{one-le-pow, mod-lt, div-div-eq-div-mul, mul-div_cancel}
use Prim.Native.Nat.{
  ℕ, zero, suc, ◌+◌, ◌-◌, ◌*◌, ◌/◌, ◌%◌, ◌^◌, ◌≤◌, ◌<◌, min, max, bit_and, bit_or,
}
use mathlib.Core.Path.{◌≡◌, refl, sym, ap, ◌∙◌}
use native.Mathlib.Omega.{arith}
use mini_visor.Base.Tests.{◌==◌, if◌then◌else◌}
use mini_visor.Base.Word.{bit, complement, clear_bits}

pub two_pow-lt : (n w : ℕ) → n < w → 2 ^ n < 2 ^ w
two_pow-lt n zero h = elim h [ ]
two_pow-lt zero (suc w) h = omega (arith, two_pow_suc w, one-le-pow w 2 (omega arith))
two_pow-lt (suc n) (suc w) h =
    omega (arith, two_pow_suc n, two_pow_suc w, two_pow-lt n w (omega arith))

-- The bits above the lowest are those of the half.
pub bit-suc : (x k : ℕ) → bit x (suc k) ≡ bit (x / 2) k
bit-suc x k = rw (two_pow_suc k, div-div-eq-div-mul x 2 (2 ^ k))

pub bit-bit_or : (k a b : ℕ) → bit (bit_or a b) k ≡ max (bit a k) (bit b k)
bit-bit_or zero a b = omega (arith, bit_or_digit a b)
bit-bit_or (suc k) a b =
    rw (bit-suc (bit_or a b) k, bit-suc a k, bit-suc b k, half) (bit-bit_or k (a / 2) (b / 2))
  where
    half : bit_or a b / 2 ≡ bit_or (a / 2) (b / 2)
    half = omega (arith, bit_or_digit a b)

pub bit-bit_and : (k a b : ℕ) → bit (bit_and a b) k ≡ min (bit a k) (bit b k)
bit-bit_and zero a b = omega (arith, bit_and_digit a b)
bit-bit_and (suc k) a b =
    rw (bit-suc (bit_and a b) k, bit-suc a k, bit-suc b k, half) (bit-bit_and k (a / 2) (b / 2))
  where
    half : bit_and a b / 2 ≡ bit_and (a / 2) (b / 2)
    half = omega (arith, bit_and_digit a b)

pub bit_or-lt : (w a b : ℕ) → a < 2 ^ w → b < 2 ^ w → bit_or a b < 2 ^ w
bit_or-lt zero a b p q = omega (arith, bit_or_digit a b, zeros a b p q)
  where
    zeros : (a b : ℕ) → a < 1 → b < 1 → bit_or a b ≡ 0
    zeros zero zero p q = refl
    zeros zero (suc b) p q = absurd (omega arith)
    zeros (suc a) b p q = absurd (omega arith)
bit_or-lt (suc w) a b p q = omega (
  arith,
  bit_or_digit a b,
  two_pow_suc w,
  bit_or-lt w (a / 2) (b / 2) (omega (arith, two_pow_suc w)) (omega (arith, two_pow_suc w)),
)

bit_and-zero_below : (n a : ℕ) → a ≤ n → bit_and a 0 ≡ 0
bit_and-zero_below n zero p = refl
bit_and-zero_below zero (suc a) p = elim p [ ]
bit_and-zero_below (suc n) (suc a) p =
    omega (arith, bit_and_digit (suc a) 0, bit_and-zero_below n (suc a / 2) (omega arith))

pub bit_and-zero : (a : ℕ) → bit_and a 0 ≡ 0
bit_and-zero a = bit_and-zero_below a a (omega arith)

pub bit-zero : (k : ℕ) → bit 0 k ≡ 0
bit-zero zero = refl
bit-zero (suc k) = bit-suc 0 k ∙ bit-zero k

pub bit-le-one : (a k : ℕ) → bit a k ≤ 1
bit-le-one a k = omega arith

pub bit_and-le : (w a b : ℕ) → b < 2 ^ w → bit_and a b ≤ b
bit_and-le zero a zero p = omega (arith, bit_and-zero a)
bit_and-le zero a (suc b) p = absurd (omega arith)
bit_and-le (suc w) a b p = omega (
  arith,
  bit_and_digit a b,
  two_pow_suc w,
  bit_and-le w (a / 2) (b / 2) (omega (arith, two_pow_suc w)),
)

bit_and-zero_left : (n b : ℕ) → b ≤ n → bit_and 0 b ≡ 0
bit_and-zero_left n zero p = refl
bit_and-zero_left zero (suc b) p = elim p [ ]
bit_and-zero_left (suc n) (suc b) p =
    omega (arith, bit_and_digit 0 (suc b), bit_and-zero_left n (suc b / 2) (omega arith))

pub bit_and-le_left : (w a b : ℕ) → a < 2 ^ w → bit_and a b ≤ a
bit_and-le_left zero zero b p = omega (arith, bit_and-zero_left b b (omega arith))
bit_and-le_left zero (suc a) b p = absurd (omega arith)
bit_and-le_left (suc w) a b p = omega (
  arith,
  bit_and_digit a b,
  two_pow_suc w,
  bit_and-le_left w (a / 2) (b / 2) (omega (arith, two_pow_suc w)),
)

pub bit-complement : (w k x : ℕ) → x < 2 ^ w → k < w → bit (complement w x) k ≡ 1 - bit x k
bit-complement zero k x p q = elim q [ ]
bit-complement (suc w) zero x p q = omega (arith, two_pow_suc w)
bit-complement (suc w) (suc k) x p q =
    rw (bit-suc (complement (suc w) x) k, bit-suc x k, half)
      (bit-complement w k (x / 2) (omega (arith, two_pow_suc w)) (omega arith))
  where
    half : complement (suc w) x / 2 ≡ complement w (x / 2)
    half = omega (arith, two_pow_suc w)

pub bit-two_pow : (n k : ℕ) → bit (2 ^ n) k ≡ (if n == k then 1 else 0)
bit-two_pow zero zero = refl
bit-two_pow zero (suc k) = rw (bit-suc 1 k, bit-zero k) (ground arith)
bit-two_pow (suc n) zero = ground (arith, two_pow_suc n)
bit-two_pow (suc n) (suc k) = rw (bit-suc (2 ^ suc n) k, half) (bit-two_pow n k ∙ ground arith)
  where
    half : 2 ^ suc n / 2 ≡ 2 ^ n
    half = omega (arith, two_pow_suc n)

-- `x & (1 << n)` is the bit in its place.
pub bit_and-two_pow : (n x : ℕ) → bit_and x (2 ^ n) ≡ bit x n * 2 ^ n
bit_and-two_pow zero x = omega (arith, bit_and_digit x 1, bit_and-zero (x / 2))
bit_and-two_pow (suc n) x = rw (bit-suc x n) (
    omega (
      arith,
      bit_and_digit x (2 ^ suc n),
      half,
      ap (bit_and (x / 2)) half,
      two_pow_suc n,
      ap (λ (t : ℕ). bit (x / 2) n * t) (two_pow_suc n),
      bit_and-two_pow n (x / 2),
    ))
  where
    half : 2 ^ suc n / 2 ≡ 2 ^ n
    half = omega (arith, two_pow_suc n)

mod_double : (x m : ℕ) → 0 < m → x % (2 * m) ≡ 2 * (x / 2 % m) + x % 2
mod_double x m h = grind arith

-- `x & ((1 << n) - 1)` is the remainder.
pub bit_and_mask : (n x : ℕ) → bit_and x (2 ^ n - 1) ≡ x % 2 ^ n
bit_and_mask zero x = omega (arith, bit_and-zero x)
bit_and_mask (suc n) x = omega (
  arith,
  bit_and_digit x (2 ^ suc n - 1),
  ap (bit_and (x / 2)) half,
  two_pow_suc n,
  ap (λ (t : ℕ). x % t) (two_pow_suc n),
  one-le-pow n 2,
  mod_double x (2 ^ n) (one-le-pow n 2 (omega arith)),
  bit_and_mask n (x / 2),
)
  where
    half : (2 ^ suc n - 1) / 2 ≡ 2 ^ n - 1
    half = omega (arith, two_pow_suc n, one-le-pow n 2 (omega arith))

-- Numbers of `w` bits are equal if their bits are.
pub bit_ext : (w a b : ℕ) → a < 2 ^ w → b < 2 ^ w → ((k : ℕ) → k < w → bit a k ≡ bit b k) → a ≡ b
bit_ext zero a b p q h = omega arith
bit_ext (suc w) a b p q h = omega (
  arith,
  h 0 (omega arith),
  bit_ext w (a / 2) (b / 2) (omega (arith, two_pow_suc w)) (omega (arith, two_pow_suc w))
      (λ k l. sym (bit-suc a k) ∙ h (suc k) (omega arith) ∙ bit-suc b k),
)

-- A cast to `w` bits keeps the low bits.
pub bit-mod : (w k x : ℕ) → k < w → bit (x % 2 ^ w) k ≡ bit x k
bit-mod zero k x p = elim p [ ]
bit-mod (suc w) zero x p = rw double (omega arith)
  where
    double : x % 2 ^ suc w ≡ 2 * (x / 2 % 2 ^ w) + x % 2
    double = rw (two_pow_suc w) (mod_double x (2 ^ w) (one-le-pow w 2 (omega arith)))
bit-mod (suc w) (suc k) x p =
    rw (bit-suc (x % 2 ^ suc w) k, bit-suc x k, half) (bit-mod w k (x / 2) (omega arith))
  where
    half : x % 2 ^ suc w / 2 ≡ x / 2 % 2 ^ w
    half = rw (two_pow_suc w) (omega (arith, mod_double x (2 ^ w) (one-le-pow w 2 (omega arith))))

-- Setting a bit above the low `w` ones leaves them alone.
pub mod-bit_or-high : (w n x : ℕ) → w ≤ n → bit_or x (2 ^ n) % 2 ^ w ≡ x % 2 ^ w
mod-bit_or-high w n x p =
    bit_ext w _ _ (mod-lt _ (one-le-pow w 2 (omega arith)))
      (mod-lt _ (one-le-pow w 2 (omega arith)))
      λ k q. bit-mod w k (bit_or x (2 ^ n)) q ∙ above k q ∙ sym (bit-mod w k x q)
  where
    above : (k : ℕ) → k < w → bit (bit_or x (2 ^ n)) k ≡ bit x k
    above k q = ground (arith, bit-bit_or k x (2 ^ n), bit-two_pow n k)

-- A mask whose low `k` bits are 0 sees only the bits above.
pub bit_and-shifted : (k x m : ℕ) → bit_and x (m * 2 ^ k) ≡ bit_and (x / 2 ^ k) m * 2 ^ k
bit_and-shifted zero x m = ground arith
bit_and-shifted (suc k) x m =
    rw (two_pow_suc k, sym (div-div-eq-div-mul x 2 (2 ^ k)))
      (ground (
        arith,
        bit_and_digit x (m * (2 * 2 ^ k)),
        half,
        ap (bit_and (x / 2)) half,
        bit_and-shifted k (x / 2) m,
      ))
  where
    half : m * (2 * 2 ^ k) / 2 ≡ m * 2 ^ k
    half = omega arith

-- The field of `n` bits from bit `k`.
pub bit_and-field : (n k x : ℕ) → bit_and x ((2 ^ n - 1) * 2 ^ k) / 2 ^ k ≡ x / 2 ^ k % 2 ^ n
bit_and-field n k x =
    rw (bit_and-shifted k x (2 ^ n - 1), bit_and_mask n (x / 2 ^ k))
      (mul-div_cancel (x / 2 ^ k % 2 ^ n) (one-le-pow k 2 (omega arith)))
