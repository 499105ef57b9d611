-- ===== src/Base/Bits/Pow.antt =====
-- Powers of two.
use Prim.Native.Nat.{ℕ, zero, suc, ◌+◌, ◌*◌, ◌^◌}
use mathlib.Core.Path.{◌≡◌, ap, ◌∙◌}
use native.Mathlib.Nat.{pow-suc, mul_assoc}
use native.Mathlib.Omega.{arith}

pub two_pow_suc : (k : ℕ) → 2 ^ suc k ≡ 2 * 2 ^ k
two_pow_suc k = omega (arith, pow-suc 2 k)

pub two_pow_add : (a b : ℕ) → 2 ^ (a + b) ≡ 2 ^ a * 2 ^ b
two_pow_add zero b = ground arith
two_pow_add (suc a) b =
    let e : suc a + b ≡ suc (a + b) = omega arith in
    ap (λ (n : ℕ). 2 ^ n) e
    ∙ omega (
      arith,
      two_pow_suc a,
      two_pow_suc (a + b),
      two_pow_add a b,
      mul_assoc 2 (2 ^ a) (2 ^ b),
      ap (λ (t : ℕ). t * 2 ^ b) (two_pow_suc a),
    )
