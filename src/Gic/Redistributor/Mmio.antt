-- ===== src/Gic/Redistributor/Mmio.antt =====
-- `MmioHandler` for the redistributor of src/mmio/gicv3.rs.
use mini_visor.Base.{
  ℕ, zero, suc, ◌+◌, ◌-◌, ◌*◌, ◌/◌, bit_and, bit_or, Bool, true, false, ◌&&◌, ◌||◌, none, u32,
  ◌>>>◌, ◌<<<◌, ltb, leb, within, ◌==◌, if◌then◌else◌, clear_bits, Outcome, done, ◌>>=◌, index,
  assign,
}
use mini_visor.Cpu.{Cpu}
use mini_visor.Gic.Bank.{with_byte}
use mini_visor.Gic.Redistributor.{
  GicRedistributorMmio, gicr_waker_children_asleep, gicr_waker_processor_sleep, generate_typer,
  get_enable, get_pending, trigger_interrupt,
}

-- GICR_VLPI_BASE
abbrev pub sgi_base : ℕ
sgi_base = 0x10000

unfoldable pub read : GicRedistributorMmio → ℕ → ℕ → Outcome ℕ
unfolding generate_typer
read r offset access_width =
    if offset == 0 && access_width == 32
    then done r.ctlr
    else if offset == 0x8 && (access_width == 32 || access_width == 64)
    then done (generate_typer r)
    else if offset == 0x8 + 4 && access_width == 32
    then done (generate_typer r >>> 32)
    else if offset == 0x14 && access_width == 32
    then done r.waker
    else if offset == 0xffe8 && access_width == 32
    then done (3 <<< 4)
    else if offset == sgi_base + 0x80 && access_width == 32
    then done r.group
    else if (offset == sgi_base + 0x100 || offset == sgi_base + 0x180) && access_width == 32
    then done r.enable
    else if (offset == sgi_base + 0x200 || offset == sgi_base + 0x280) && access_width == 32
    then done r.pending
    else if (offset == sgi_base + 0x300 || offset == sgi_base + 0x380) && access_width == 32
    then done r.active
    else if within (sgi_base + 0x400) (sgi_base + 0x41c) offset && access_width == 32
    then index r.priority ((offset - (sgi_base + 0x400)) / 4)
    else if within (sgi_base + 0xc00) (sgi_base + 0xc04) offset && access_width == 32
    then index r.configuration ((offset - (sgi_base + 0xc00)) / 4)
    else if offset == sgi_base + 0xd00 && access_width == 32
    then done r.group_modifier
    else done 0

-- `for int_id in 0..32` after a write of GICR_ISENABLER0 or GICR_ISPENDR0, with `left` interrupts
-- to go; `wanted` is the test that is made of an interrupt whose bit is set.
unfoldable pub trigger_each :
    (wanted : ℕ → GicRedistributorMmio → Outcome Bool)
    → ℕ
    → ℕ
    → ℕ
    → GicRedistributorMmio
    → Cpu
    → Outcome (GicRedistributorMmio × Cpu)
trigger_each wanted zero int_id value r c = done (r, c)
trigger_each wanted (suc left) int_id value r c = elim (value == 0) [
  | true ↦ done (r, c)
  | false ↦ do
    set_bit ← (if bit_and value 1 == 0 then done false else wanted int_id r)
    (r', c') ← (if set_bit then trigger_interrupt int_id none r c else done (r, c))
    trigger_each wanted left (int_id + 1) (value >>> 1) r' c'
]

unfoldable pub write_priority : GicRedistributorMmio → ℕ → ℕ → ℕ → Outcome GicRedistributorMmio
unfolding with_byte
write_priority r offset access_width value =
    let register_offset = (offset - (sgi_base + 0x400)) / 4 in
    let byte_offset = (offset - (sgi_base + 0x400)) - register_offset * 4 in
    if access_width == 8
    then (do
      old ← index r.priority register_offset
      new ← assign r.priority register_offset (with_byte old (byte_offset * 8) value)
      done (record r { priority = new }))
    else if byte_offset == 0 && access_width == 32
    then (do
      new ← assign r.priority register_offset (u32 value)
      done (record r { priority = new }))
    else done r

-- The chain of tests that starts at GICR_WAKER.
unfoldable pub write_rest :
    GicRedistributorMmio → ℕ → ℕ → ℕ → Cpu → Outcome (GicRedistributorMmio × Cpu)
unfolding trigger_each write_priority get_pending get_enable
write_rest r offset access_width value c =
    if offset == 0x14 && access_width == 32
    then done (
      record r {
        waker =
            if bit_and (u32 value) gicr_waker_processor_sleep == 0
            then 0
            else bit_or gicr_waker_children_asleep gicr_waker_processor_sleep;
      },
      c,
    )
    else if offset == sgi_base + 0x80 && access_width == 32
    then done (record r { group = u32 value }, c)
    else if offset == sgi_base + 0x100 && access_width == 32
    then trigger_each get_pending 32 0 value (record r { enable = bit_or r.enable (u32 value) }) c
    else if offset == sgi_base + 0x180 && access_width == 32
    then done (record r { enable = clear_bits 32 r.enable (u32 value) }, c)
    else if offset == sgi_base + 0x200 && access_width == 32
    then trigger_each get_enable 32 0 value (record r { pending = bit_or r.pending (u32 value) }) c
    else if offset == sgi_base + 0x280 && access_width == 32
    then done (record r { pending = clear_bits 32 r.pending (u32 value) }, c)
    else if offset == sgi_base + 0x300 && access_width == 32
    then done (record r { active = bit_or r.active (u32 value) }, c)
    else if offset == sgi_base + 0x380 && access_width == 32
    then done (record r { active = clear_bits 32 r.active (u32 value) }, c)
    else if leb (sgi_base + 0x400) offset && ltb offset (sgi_base + 0x41c + 4)
    then (do r' ← write_priority r offset access_width value; done (r', c))
    else if within (sgi_base + 0xc00) (sgi_base + 0xc04) offset && access_width == 32
    then (do
      new ← assign r.configuration ((offset - (sgi_base + 0xc00)) / 4) (u32 value)
      done (record r { configuration = new }, c))
    else if offset == sgi_base + 0xd00 && access_width == 32
    then done (record r { group_modifier = u32 value }, c)
    else done (r, c)

unfoldable pub write : GicRedistributorMmio → ℕ → ℕ → ℕ → Cpu → Outcome (GicRedistributorMmio × Cpu)
unfolding write_rest
write r offset access_width value c =
    write_rest (if offset == 0 && access_width == 32 then record r { ctlr = u32 value } else r)
      offset access_width value c
