-- ===== src/Gic/Bank/Bits.antt =====
-- One bit for each interrupt: what the accessors of a register array read after a change.
use mini_visor.Base.{
  ℕ, ◌/◌, ◌%◌, ◌^◌, ◌<◌, ◌≡◌, inl, inr, ◌∙◌, Bool, true, false, List, length, set, get_or, bit,
  ◌==◌, Bool-cases, if◌then◌else◌, done, arith, get_elem?-eq-get_or, get_or-set_self, get_or-set_ne,
  complement,
}
use mini_visor.Base.Bits.{
  bit_and_mask, bit-bit_or, bit-bit_and, bit-two_pow, bit-complement, bit-le-one, two_pow-lt,
}
use mini_visor.Gic.Bank.{register_bit, changed_word, change_bit}

-- The bit of an interrupt in an array of 32-bit registers.
abbrev pub bit_at : List ℕ → ℕ → ℕ
bit_at registers int_id = bit (get_or registers (int_id / 32) 0) (int_id % 32)

abbrev pub as_bit : Bool → ℕ
as_bit b = if b then 1 else 0

module _ (registers : List ℕ) (int_id : ℕ) (fits : int_id / 32 < length registers) where
  pub register_bit_lem : register_bit registers int_id ≡ done (bit_at registers int_id)
  unfolding register_bit
  register_bit_lem = rw (
    get_elem?-eq-get_or registers (int_id / 32) 0 fits,
    bit_and_mask 1 (get_or registers (int_id / 32) 0 / 2 ^ (int_id % 32)),
  )

  pub change_bit_lem :
      (b : Bool)
      → change_bit registers int_id b
        ≡ done (
            set registers
              (int_id / 32)
              (changed_word (get_or registers (int_id / 32) 0) (int_id % 32) b))
  unfolding change_bit
  change_bit_lem b = rw (get_elem?-eq-get_or registers (int_id / 32) 0 fits)

pub bit-changed_word :
    (r offset k : ℕ) (b : Bool)
    → offset < 32
    → k < 32
    → bit (changed_word r offset b) k ≡ (if offset == k then as_bit b else bit r k)
unfolding changed_word
bit-changed_word r offset k true p q =
    ground (arith, bit-bit_or k r (2 ^ offset), bit-two_pow offset k, bit-le-one r k)
bit-changed_word r offset k false p q = ground (
  arith,
  bit-bit_and k r (complement 32 (2 ^ offset)),
  bit-complement 32 k (2 ^ offset) (two_pow-lt offset 32 p) q,
  bit-two_pow offset k,
  bit-le-one r k,
)

-- Changing one interrupt's bit changes that bit alone.
pub bit_at-changed :
    (registers : List ℕ) (i j : ℕ) (b : Bool)
    → i / 32 < length registers
    → bit_at (set registers (i / 32) (changed_word (get_or registers (i / 32) 0) (i % 32) b)) j
      ≡ (if i == j then as_bit b else bit_at registers j)
bit_at-changed registers i j b fits = elim (Bool-cases (i / 32 == j / 32)) [
  | inl same ↦
      let e : j / 32 ≡ i / 32 = ground arith in
      rw (e, get_or-set_self registers (i / 32) word 0 fits)
        (bit-changed_word r (i % 32) (j % 32) b (omega arith) (omega arith) ∙ ground arith)
  | inr other ↦ rw (get_or-set_ne registers (i / 32) (j / 32) word 0 (ground arith)) (ground arith)
]
  where
    r : ℕ
    r = get_or registers (i / 32) 0

    word : ℕ
    word = changed_word r (i % 32) b
