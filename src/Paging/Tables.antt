-- ===== src/Paging/Tables.antt =====
-- The levels above the pages, and the two functions of src/paging.rs that the rest calls.
use mini_visor.Base.{
  ℕ, zero, suc, ◌+◌, ◌-◌, ◌*◌, ◌^◌, Bool, true, false, ◌&&◌, Option, none, some, Outcome, done,
  ◌>>=◌, unwrap, u8, ◌<<<◌, ◌>>>◌, clear_bits, bit_and, bit_or, ◌==◌, leb, if◌then◌else◌,
}
use mini_visor.Allocator.{MemoryAllocator}
use mini_visor.Paging.{
  Memory, Mapping, write, init_table, is_table_descriptor, get_next_level_table_address,
  table_descriptor, block_descriptor, put_leaf, map_pages, allocate_pages, page_shift,
  number_of_concatenated_page_tables,
}

-- The table that the descriptor refers to, which is made if there is none.
unfoldable pub next_level_table : ℕ → Mapping → Outcome (Option (ℕ × Mapping))
unfolding allocate_pages table_descriptor
next_level_table address m =
    if is_table_descriptor (m.memory address)
    then done (some (get_next_level_table_address (m.memory address), m))
    else do
      allocated ← allocate_pages 1 12 m.allocator
      elim allocated [
        | none ↦ done none
        | some r ↦ done (
            some (
              r.0,
              record m {
                memory = write (init_table m.memory r.0 512) address (table_descriptor r.0);
                allocator = r.1;
              },
            ))
      ]

-- The block may be mapped by the descriptor itself.
abbrev pub is_block : ℕ → ℕ → Mapping → Bool
is_block level block_size m =
    leb 1 level
    && leb block_size m.remaining_size
    && bit_and m.physical_address (block_size - 1) == 0
    && bit_and m.intermediate_physical_address (block_size - 1) == 0

-- The `for` above level 3, with `count` descriptors to go from `address` on; `below` is the call for
-- the next level.
unfoldable pub map_each :
    (below : ℕ → Mapping → Outcome (Option Mapping))
    → ℕ
    → ℕ
    → ℕ
    → ℕ
    → Mapping
    → Outcome (Option Mapping)
unfolding next_level_table put_leaf block_descriptor
map_each below level zero address permission m = done (some m)
map_each below level (suc count) address permission m =
    let block_size : ℕ = 1 <<< (12 + 9 * (3 - level)) in
    let rest : Mapping → Outcome (Option Mapping) = λ m'.
      if m'.remaining_size == 0
      then done (some m')
      else map_each below level count (address + 8) permission m' in
    if is_block level block_size m
    then (do
      m' ← put_leaf address (block_descriptor m.physical_address permission) block_size m
      rest m')
    else do
      next ← next_level_table address m
      elim next [
        | none ↦ done none
        | some t ↦ (do mapped ← below t.0 t.1; elim mapped [ none ↦ done none | some m' ↦ rest m' ])
      ]

-- `_map_address_stage2` at level `3 - depth`.
unfoldable pub map_level : ℕ → ℕ → ℕ → ℕ → Mapping → Outcome (Option Mapping)
unfolding map_each map_pages
map_level zero table_address permission num_of_descriptors m =
    let index = bit_and (m.intermediate_physical_address >>> 12) (num_of_descriptors - 1) in
    do
      m' ← map_pages (num_of_descriptors - index) (table_address + index * 8) permission m
      done (some m')
map_level (suc depth) table_address permission num_of_descriptors m =
    let shift : ℕ = 12 + 9 * suc depth in
    let index = bit_and (m.intermediate_physical_address >>> shift) (num_of_descriptors - 1) in
    map_each (λ table m'. map_level depth table permission 512 m') (3 - suc depth)
      (num_of_descriptors - index) (table_address + index * 8) permission m

-- The memory and the registers.
pub record Stage2 : Type 0 where
  pub memory : Memory
  pub allocator : MemoryAllocator
  pub id_aa64mmfr0_el1 : ℕ
  pub vtcr_el2 : ℕ
  pub vttbr_el2 : ℕ

abbrev pub id_aa64mmfr0_el1_parange : ℕ
id_aa64mmfr0_el1_parange = 0b1111

abbrev pub vttbr_baddr : ℕ
vttbr_baddr = clear_bits 64 (2 ^ 47 - 1) 1

abbrev pub vtcr_el2_sl0 : ℕ
vtcr_el2_sl0 = 0b11 <<< 6

abbrev pub vtcr_el2_t0sz : ℕ
vtcr_el2_t0sz = 0b111111 <<< 0

-- `(t0sz, initial_lookup_level)` of a range of physical addresses.
unfoldable pub lookup_of : ℕ → ℕ × ℕ
lookup_of ps =
    if ps == 0b000
    then (32, 1)
    else if ps == 0b001
    then (28, 1)
    else if ps == 0b010
    then (24, 1)
    else if ps == 0b011
    then (22, 1)
    else if ps == 0b100
    then (20, 0)
    else (16, 0)

unfoldable pub vtcr_of : ℕ → ℕ
unfolding lookup_of
vtcr_of ps =
    let (t0sz, initial_lookup_level) = lookup_of ps in
    let sl0 = if initial_lookup_level == 1 then 0b01 else 0b10 in
    bit_or
      (bit_or
        (bit_or
          (bit_or (bit_or (bit_or (bit_or (2 ^ 31) (ps <<< 16)) (0 <<< 14)) (0b11 <<< 12))
            (0b11 <<< 10))
          (0b11 <<< 8))
        (sl0 <<< 6))
      (t0sz <<< 0)

unfoldable pub init_stage2_translation_table : Stage2 → Outcome Stage2
unfolding vtcr_of allocate_pages number_of_concatenated_page_tables
init_stage2_translation_table s = do
  let ps = bit_and s.id_aa64mmfr0_el1 id_aa64mmfr0_el1_parange
  let (t0sz, initial_lookup_level) = lookup_of ps
  let number_of_tables = number_of_concatenated_page_tables (u8 t0sz) initial_lookup_level
  allocated ← allocate_pages number_of_tables (12 + number_of_tables - 1) s.allocator
  r ← unwrap allocated
  done (record s {
    memory = init_table s.memory r.0 (number_of_tables * 512);
    allocator = r.1;
    vtcr_el2 = vtcr_of ps;
    vttbr_el2 = r.0;
  })

-- The first level and the size exponent that a value of VTCR_EL2 stands for.
unfoldable pub initial_lookup_level : ℕ → ℕ
initial_lookup_level vtcr =
    let sl0 = u8 (bit_and vtcr vtcr_el2_sl0 >>> 6) in
    if sl0 == 0b00 then 2 else if sl0 == 0b01 then 1 else if sl0 == 0b10 then 0 else 3

unfoldable pub t0sz_of : ℕ → ℕ
t0sz_of vtcr = u8 (bit_and vtcr vtcr_el2_t0sz >>> 0)

abbrev pub bool_bit : Bool → ℕ
bool_bit true = 1
bool_bit false = 0

unfoldable pub map_address_stage2 : ℕ → ℕ → ℕ → Bool → Bool → Stage2 → Outcome (Option Stage2)
unfolding map_level initial_lookup_level t0sz_of number_of_concatenated_page_tables
map_address_stage2 physical_address intermediate_physical_address map_size is_readable is_writable
      s =
    if bit_and map_size ((1 <<< page_shift) - 1) == 0
    then (do
      let level = initial_lookup_level s.vtcr_el2
      let num_of_descriptors = number_of_concatenated_page_tables (t0sz_of s.vtcr_el2) level * 512
      mapped ←
          map_level (3 - level) (bit_and s.vttbr_el2 vttbr_baddr)
            (bit_or (bool_bit is_writable <<< 1) (bool_bit is_readable)) num_of_descriptors
            (record {
              physical_address = physical_address;
              intermediate_physical_address = intermediate_physical_address;
              remaining_size = map_size;
              memory = s.memory;
              allocator = s.allocator;
            })
      elim mapped [
        | none ↦ done none
        | some m ↦ done (some (record s { memory = m.memory; allocator = m.allocator }))
      ])
    else done none
