-- ===== src/Gic/Bank.antt =====
-- What the accessors of src/mmio/gicv3.rs have in common: arrays of 32-bit registers that hold
-- one bit for each interrupt, and the affinity fields of a 64-bit register.
pub mod Bits
use mini_visor.Base.{
  ℕ, ◌+◌, ◌-◌, ◌*◌, ◌/◌, ◌%◌, ◌^◌, bit_and, bit_or, Bool, true, false, not, List, set, u64,
  clear_bits, ◌>>>◌, ◌<<<◌, ◌==◌, if◌then◌else◌, Outcome, done, ◌>>=◌, index,
}

-- `(registers[int_id / 32] >> (int_id % 32)) & 1`
unfoldable pub register_bit : List ℕ → ℕ → Outcome ℕ
register_bit registers int_id = do
  r ← index registers (int_id / 32)
  done (bit_and (r >>> (int_id % 32)) 1)

-- The word with bit `offset` set or cleared.
unfoldable pub changed_word : ℕ → ℕ → Bool → ℕ
changed_word r offset true = bit_or r (2 ^ offset)
changed_word r offset false = clear_bits 32 r (2 ^ offset)

-- `registers[int_id / 32] |= 1 << (int_id % 32)`, or `&= !(1 << (int_id % 32))`.
unfoldable pub change_bit : List ℕ → ℕ → Bool → Outcome (List ℕ)
unfolding changed_word
change_bit registers int_id b = do
  r ← index registers (int_id / 32)
  done (set registers (int_id / 32) (changed_word r (int_id % 32) b))

-- `(priority[int_id / 4] >> ((int_id % 4) * 8)) & 0xFF`
unfoldable pub priority_byte : List ℕ → ℕ → Outcome ℕ
priority_byte priority int_id = do
  r ← index priority (int_id / 4)
  done (bit_and (r >>> (int_id % 4 * 8)) 0xff)

-- `(x & ((1 << hi) - 1)) >> lo`
unfoldable pub field : ℕ → ℕ → ℕ → ℕ
field hi lo x = bit_and x (2 ^ hi - 1) >>> lo

-- A byte written into a 32-bit priority register: the old byte is masked out, and the value,
-- which is 64 bits wide, is shifted into its place and cast.
unfoldable pub with_byte : ℕ → ℕ → ℕ → ℕ
with_byte r bit_offset value =
    bit_or (clear_bits 32 r (0xff <<< bit_offset)) (u64 (value <<< bit_offset) % 2 ^ 32)
