-- ===== src/Allocator/Align.antt =====
-- The alignment of addresses in src/memory_allocator.rs.
use native.Mathlib.Nat.{
  add-mul, suc-mul, zero-mod, mod-eq_of_lt, div-lt_iff_lt-mul, mul-mod_left, div-mul-le_self,
  lt-div-mul-add, one-le-pow,
}
use mini_visor.Base.{
  ℕ, suc, ◌+◌, ◌-◌, ◌*◌, ◌/◌, ◌%◌, ◌^◌, ◌<◌, ◌≤◌, ◌≡◌, ◌∙◌, sym, ap, arith, ltb, ◌==◌, ltb→lt,
  bit_and, complement,
}
use mini_visor.Base.Bits.{bit_and-shifted, bit_and_mask}
use mini_visor.Base.Bits.Pow.{two_pow_add}
use mini_visor.Allocator.Ranges.{Gives, gives, Gives-bind, Gives-cases, Gives-assert}
use mini_visor.Allocator.Removes.{Gives-add}
use mini_visor.Allocator.{align_down, align_address_and_available_size}

-- The mask of the alignment, as a multiple of it.
align_mask : (k : ℕ) → k ≤ 64 → complement 64 (2 ^ k - 1) ≡ (2 ^ (64 - k) - 1) * 2 ^ k
align_mask k h =
    let n : ℕ = 64 - k in
    let whole : n + k ≡ 64 = omega arith in
    let e : 2 ^ 64 ≡ 2 ^ n * 2 ^ k = ap (λ (t : ℕ). 2 ^ t) (sym whole) ∙ two_pow_add n k in
    let one_more : 2 ^ n ≡ 2 ^ n - 1 + 1 = omega (arith, one-le-pow n 2 (omega arith)) in
    omega (
      arith,
      e,
      ap (λ (t : ℕ). t * 2 ^ k) one_more,
      add-mul (2 ^ n - 1) 1 (2 ^ k),
      one-le-pow k 2 (omega arith),
    )

-- Rounding a word down to a multiple of a power of 2.
pub align_down_lem : (x k : ℕ) → x < 2 ^ 64 → k ≤ 64 → align_down x k ≡ x / 2 ^ k * 2 ^ k
align_down_lem x k h le =
    ap (bit_and x) (align_mask k le)
    ∙ bit_and-shifted k x (2 ^ (64 - k) - 1)
    ∙ ap (λ (t : ℕ). t * 2 ^ k) (bit_and_mask (64 - k) (x / 2 ^ k) ∙ mod-eq_of_lt below)
  where
    whole : 64 - k + k ≡ 64
    whole = omega arith

    below : x / 2 ^ k < 2 ^ (64 - k)
    below =
        (div-lt_iff_lt-mul (one-le-pow k 2 (omega arith))).1
          (omega (arith, h, two_pow_add (64 - k) k, ap (λ (t : ℕ). 2 ^ t) whole))

next_multiple :
    (x k : ℕ)
    → ((x / 2 ^ k * 2 ^ k + 2 ^ k) % 2 ^ k ≡ 0)
      × (x < x / 2 ^ k * 2 ^ k + 2 ^ k)
      × (x / 2 ^ k * 2 ^ k + 2 ^ k ≤ x + 2 ^ k)
next_multiple x k = (
  ap (λ (t : ℕ). t % 2 ^ k) (sym (suc-mul (x / 2 ^ k) (2 ^ k)))
      ∙ mul-mod_left (suc (x / 2 ^ k)) (2 ^ k),
  lt-div-mul-add (one-le-pow k 2 (omega arith)),
  omega (arith, div-mul-le_self x (2 ^ k)),
)

-- If align_address_and_available_size returns for a start that is a word, the address is the first
-- multiple of the alignment that is not below the start, and what is available is what is left of
-- the size from there on, nothing if the address is past the end.
pub align_address_and_available_size-Gives :
    (start size k : ℕ)
    → start < 2 ^ 64
    → Gives
        (λ (r : ℕ × ℕ).
          (r.0 % 2 ^ k ≡ 0) × (start ≤ r.0) × (r.0 < start + 2 ^ k) × (r.1 ≡ start + size - r.0))
        (align_address_and_available_size start size k)
unfolding align_address_and_available_size
align_address_and_available_size-Gives start size k h =
    Gives-cases (start == 0)
      (λ zero_start.
        let e : start ≡ 0 = ground arith in
        gives (zero-mod (2 ^ k), omega arith, omega (arith, one-le-pow k 2), omega arith))
      λ later.
        let pos : 0 < start = ground arith in
        Gives-bind (Gives-assert (ltb k 64)) λ _ b.
          let small : k < 64 = ltb→lt k 64 b in
          Gives-bind (Gives-add (align_down (start - 1) k) (2 ^ k)) λ a e.
            let at : a ≡ (start - 1) / 2 ^ k * 2 ^ k + 2 ^ k =
              omega (arith, e, align_down_lem (start - 1) k (omega arith) (omega arith)) in
            let next = next_multiple (start - 1) k in
            let first : (a % 2 ^ k ≡ 0) × (start ≤ a) × (a < start + 2 ^ k) =
              (ap (λ (t : ℕ). t % 2 ^ k) at ∙ next.0, omega arith, omega arith) in
            Gives-cases (ltb (a - start) size)
              (λ fits. gives (first.0, first.1, first.2, ground arith))
              (λ too_small. gives (first.0, first.1, first.2, ground arith))
