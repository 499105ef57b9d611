-- ===== src/Gic/Distributor/Mmio.antt =====
-- `MmioHandler` for the distributor of src/mmio/gicv3.rs. `size_of::<u32>()` is 4.
use mini_visor.Base.{
  ℕ, zero, suc, ◌+◌, ◌-◌, ◌*◌, ◌/◌, ◌^◌, bit_and, bit_or, Bool, true, false, ◌&&◌, none, List, set,
  u32, ◌>>>◌, ◌<<<◌, ltb, leb, within, ◌==◌, if◌then◌else◌, clear_bits, Outcome, done, out_of_fuel,
  ◌>>=◌, index, assign,
}
use mini_visor.Cpu.{Cpu}
use mini_visor.Gic.Bank.{with_byte}
use mini_visor.Gic.Distributor.{GicDistributorMmio, get_enable, get_pending, trigger_interrupt}

-- A 32-bit access of a register between the offsets `lo` and `hi`.
abbrev pub word_in : ℕ → ℕ → ℕ → ℕ → Bool
word_in lo hi offset access_width = within lo hi offset && access_width == 32

abbrev pub gicd_typer_value : ℕ
gicd_typer_value = bit_or (2 ^ 25) 31

abbrev pub gic_revision : ℕ
gic_revision = 3

unfoldable pub read_priority : List ℕ → ℕ → ℕ → Outcome ℕ
read_priority priority offset access_width =
    let register_offset = (offset - 0x400) / 4 in
    let byte_offset = (offset - 0x400) - register_offset * 4 in
    if access_width == 8
    then (do r ← index priority register_offset; done (bit_and (r >>> (byte_offset * 8)) 0xff))
    else if byte_offset == 0 && access_width == 32
    then index priority register_offset
    else done 0

unfoldable pub write_priority : List ℕ → ℕ → ℕ → ℕ → Outcome (List ℕ)
unfolding with_byte
write_priority priority offset access_width value =
    let register_offset = (offset - 0x400) / 4 in
    let byte_offset = (offset - 0x400) - register_offset * 4 in
    if access_width == 8
    then (do
      r ← index priority register_offset
      assign priority register_offset (with_byte r (byte_offset * 8) value))
    else if byte_offset == 0 && access_width == 32
    then assign priority register_offset (u32 value)
    else done priority

unfoldable pub read : GicDistributorMmio → ℕ → ℕ → Outcome ℕ
unfolding read_priority
read d offset access_width =
    if offset == 0 && access_width == 32
    then done d.ctlr
    else if offset == 0x4 && access_width == 32
    then done gicd_typer_value
    else if word_in 0x80 0xfc offset access_width
    then index d.group ((offset - 0x80) / 4)
    else if word_in 0x100 0x17c offset access_width
    then index d.enable ((offset - 0x100) / 4)
    else if word_in 0x180 0x1fc offset access_width
    then index d.enable ((offset - 0x180) / 4)
    else if word_in 0x200 0x27c offset access_width
    then index d.pending ((offset - 0x200) / 4)
    else if word_in 0x280 0x2fc offset access_width
    then index d.pending ((offset - 0x280) / 4)
    else if word_in 0x300 0x37c offset access_width
    then index d.active ((offset - 0x300) / 4)
    else if word_in 0x380 0x3fc offset access_width
    then index d.active ((offset - 0x380) / 4)
    else if leb 0x400 offset && ltb offset (0x7f8 + 4)
    then read_priority d.priority offset access_width
    else if word_in 0xc00 0xcfc offset access_width
    then index d.configuration ((offset - 0xc00) / 4)
    else if word_in 0xd00 0xf7c offset access_width
    then index d.group_modifier ((offset - 0xd00) / 4)
    else if within 0x6100 0x7fd8 offset && access_width == 64
    then index d.router ((offset - 0x6100) / 8)
    else if offset == 0xffe8 && access_width == 32
    then done (gic_revision <<< 4)
    else done 0

-- The loop that follows a write of GICD_ISENABLER or GICD_ISPENDR: `int_id` is the interrupt of
-- the lowest bit of `value`, and `wanted` the test that is made of an interrupt whose bit is set.
unfoldable pub trigger_each :
    (wanted : ℕ → GicDistributorMmio → Outcome Bool)
    → ℕ
    → ℕ
    → ℕ
    → GicDistributorMmio
    → Cpu
    → Outcome (GicDistributorMmio × Cpu)
trigger_each wanted zero int_id value d c = out_of_fuel
trigger_each wanted (suc fuel) int_id value d c = elim (value == 0) [
  | true ↦ done (d, c)
  | false ↦ do
    set_bit ← (if bit_and value 1 == 0 then done false else wanted int_id d)
    (d', c') ← (if set_bit then trigger_interrupt int_id none d c else done (d, c))
    trigger_each wanted fuel (int_id + 1) (value >>> 1) d' c'
]

-- A u64 has at most 64 bits to shift out, and the last round sees 0.
abbrev pub loop_fuel : ℕ
loop_fuel = 65

unfoldable pub write_enable : ℕ → ℕ → GicDistributorMmio → Cpu → Outcome (GicDistributorMmio × Cpu)
unfolding trigger_each
write_enable register_offset value d c = do
  r ← index d.enable register_offset
  trigger_each get_pending loop_fuel (register_offset * 32) value
      (record d { enable = set d.enable register_offset (bit_or r (u32 value)) }) c

unfoldable pub write_pending : ℕ → ℕ → GicDistributorMmio → Cpu → Outcome (GicDistributorMmio × Cpu)
unfolding trigger_each
write_pending register_offset value d c = do
  r ← index d.pending register_offset
  trigger_each get_enable loop_fuel (register_offset * 4 * 8) value
      (record d { pending = set d.pending register_offset (bit_or r (u32 value)) }) c

-- `registers[i] |= value as u32` and `registers[i] &= !(value as u32)`.
unfoldable pub or_word : List ℕ → ℕ → ℕ → Outcome (List ℕ)
or_word registers i value = do r ← index registers i; done (set registers i (bit_or r (u32 value)))

unfoldable pub clear_word : List ℕ → ℕ → ℕ → Outcome (List ℕ)
clear_word registers i value = do
  r ← index registers i
  done (set registers i (clear_bits 32 r (u32 value)))

unfoldable pub write : GicDistributorMmio → ℕ → ℕ → ℕ → Cpu → Outcome (GicDistributorMmio × Cpu)
unfolding write_enable write_pending or_word clear_word write_priority
write d offset access_width value c =
    if offset == 0 && access_width == 32
    then done (record d { ctlr = u32 value }, c)
    else if word_in 0x80 0xfc offset access_width
    then (do r ← assign d.group ((offset - 0x80) / 4) (u32 value); done (record d { group = r }, c))
    else if word_in 0x100 0x17c offset access_width
    then write_enable ((offset - 0x100) / 4) value d c
    else if word_in 0x180 0x1fc offset access_width
    then (do
      r ← clear_word d.enable ((offset - 0x180) / 4) value
      done (record d { enable = r }, c))
    else if word_in 0x200 0x27c offset access_width
    then write_pending ((offset - 0x200) / 4) value d c
    else if word_in 0x280 0x2fc offset access_width
    then (do
      r ← clear_word d.pending ((offset - 0x280) / 4) value
      done (record d { pending = r }, c))
    else if word_in 0x300 0x37c offset access_width
    then (do r ← or_word d.active ((offset - 0x300) / 4) value; done (record d { active = r }, c))
    else if word_in 0x380 0x3fc offset access_width
    then (do
      r ← clear_word d.active ((offset - 0x380) / 4) value
      done (record d { active = r }, c))
    else if leb 0x400 offset && ltb offset (0x7f8 + 4)
    then (do
      r ← write_priority d.priority offset access_width value
      done (record d { priority = r }, c))
    else if word_in 0xc00 0xcfc offset access_width
    then (do
      r ← assign d.configuration ((offset - 0xc00) / 4) (u32 value)
      done (record d { configuration = r }, c))
    else if word_in 0xd00 0xf7c offset access_width
    then (do
      r ← assign d.group_modifier ((offset - 0xd00) / 4) (u32 value)
      done (record d { group_modifier = r }, c))
    else if within 0x6100 0x7fd8 offset && access_width == 64
    then (do r ← assign d.router ((offset - 0x6100) / 8) value; done (record d { router = r }, c))
    else done (d, c)
