-- ===== src/Paging.antt =====
-- The stage 2 translation tables of src/paging.rs. Memory is a function from the address of a
-- descriptor to its 64 bits. A call of `_map_address_stage2` at level 3 - n is `map_level n`.
-- The flush of the TLB at the end has no state here.
pub mod Tables
pub mod Words
pub mod Pages
pub mod Translate
pub mod Lookup
use mini_visor.Base.{
  ℕ, zero, suc, ◌+◌, ◌-◌, ◌*◌, ◌^◌, Bool, true, false, ◌&&◌, Option, none, some, Outcome, done,
  panic, out_of_fuel, ◌>>=◌, unwrap, add64, sub64, u8, u64, ◌<<<◌, ◌>>>◌, clear_bits, bit_and,
  bit_or, ◌==◌, leb, ltb, if◌then◌else◌,
}
use mini_visor.Allocator.{MemoryAllocator, Result, ok, err, panic as panics, out_of_fuel as stops}
use mini_visor.Allocator.Uses.{allocate}

pub data Shareability : Type 0 where
  non_shareable : Shareability
  outer_shareable : Shareability
  inner_shareable : Shareability

abbrev pub shareability_bits : Shareability → ℕ
shareability_bits non_shareable = 0b00
shareability_bits outer_shareable = 0b10
shareability_bits inner_shareable = 0b11

abbrev pub page_shift : ℕ
page_shift = 12

abbrev pub page_size : ℕ
page_size = 4096

abbrev pub table_address_mask : ℕ
table_address_mask = clear_bits 64 (2 ^ 52 - 1) (page_size - 1)

abbrev pub output_address_mask : ℕ
output_address_mask = clear_bits 64 (2 ^ 50 - 1) (page_size - 1)

abbrev pub af : ℕ
af = 1 <<< 10

abbrev pub sh : ℕ
sh = 0b11 <<< 8

abbrev pub s2ap : ℕ
s2ap = 0b11 <<< 6

abbrev pub attr_index : ℕ
attr_index = 0b1111 <<< 2

abbrev pub attr_write_back : ℕ
attr_write_back = 0b1111 <<< 2

-- A descriptor is its word.
abbrev pub new : ℕ
new = 0

abbrev pub validate_as_page_descriptor : ℕ → ℕ
validate_as_page_descriptor d = bit_or d 0b11

abbrev pub validate_as_table_descriptor : ℕ → ℕ
validate_as_table_descriptor d = bit_or d 0b11

abbrev pub validate_as_block_descriptor : ℕ → ℕ
validate_as_block_descriptor d = bit_or d 0b01

abbrev pub is_table_descriptor : ℕ → Bool
is_table_descriptor d = bit_and d 0b11 == 0b11

abbrev pub get_next_level_table_address : ℕ → ℕ
get_next_level_table_address d = bit_and d table_address_mask

abbrev pub set_output_address : ℕ → ℕ → ℕ
set_output_address d output_address =
    bit_or (bit_or (clear_bits 64 d output_address_mask) output_address) af

abbrev pub set_shareability : ℕ → Shareability → ℕ
set_shareability d s = bit_or (clear_bits 64 d sh) (shareability_bits s <<< 8)

abbrev pub set_permission : ℕ → ℕ → ℕ
set_permission d permission = bit_or (clear_bits 64 d s2ap) (permission <<< 6)

abbrev pub set_memory_attribute_write_back : ℕ → ℕ
set_memory_attribute_write_back d = bit_or (clear_bits 64 d attr_index) attr_write_back

-- What a leaf descriptor is before it is made valid.
abbrev pub leaf : ℕ → ℕ → ℕ
leaf physical_address permission =
    set_shareability
      (set_memory_attribute_write_back
        (set_permission (set_output_address new physical_address) permission))
      inner_shareable

unfoldable pub page_descriptor : ℕ → ℕ → ℕ
page_descriptor physical_address permission =
    validate_as_page_descriptor (leaf physical_address permission)

unfoldable pub block_descriptor : ℕ → ℕ → ℕ
block_descriptor physical_address permission =
    validate_as_block_descriptor (leaf physical_address permission)

unfoldable pub table_descriptor : ℕ → ℕ
table_descriptor address = validate_as_table_descriptor (set_output_address new address)

-- `first_level` is 0 to 3.
unfoldable pub number_of_concatenated_page_tables : ℕ → ℕ → ℕ
number_of_concatenated_page_tables t0sz first_level =
    let bound : ℕ = 43 - (3 - first_level) * 9 in if ltb bound t0sz then 1 else 2 ^ (bound - t0sz)

abbrev pub Memory : Type 0
Memory = ℕ → ℕ

abbrev pub write : Memory → ℕ → ℕ → Memory
write memory address value a = if a == address then value else memory a

-- Each of the descriptors from `address` on is `init`.
abbrev pub init_table : Memory → ℕ → ℕ → Memory
init_table memory address descriptors a =
    if leb address a && ltb a (address + descriptors * 8) then new else memory a

-- The arguments that `_map_address_stage2` changes, with the memory and the allocator.
pub record Mapping : Type 0 where
  pub physical_address : ℕ
  pub intermediate_physical_address : ℕ
  pub remaining_size : ℕ
  pub memory : Memory
  pub allocator : MemoryAllocator

-- src/main.rs
unfoldable pub allocate_pages : ℕ → ℕ → MemoryAllocator → Outcome (Option (ℕ × MemoryAllocator))
allocate_pages number_of_pages align s =
    elim (allocate s (u64 (number_of_pages <<< page_shift)) align) [
      | ok r ↦ done (some r)
      | err e ↦ done none
      | panics ↦ panic
      | stops ↦ out_of_fuel
    ]

-- A leaf descriptor is written, and the arguments advance by its size.
unfoldable pub put_leaf : ℕ → ℕ → ℕ → Mapping → Outcome Mapping
put_leaf address descriptor size m = do
  physical_address ← add64 m.physical_address size
  intermediate_physical_address ← add64 m.intermediate_physical_address size
  remaining_size ← sub64 m.remaining_size size
  done (record m {
    physical_address = physical_address;
    intermediate_physical_address = intermediate_physical_address;
    remaining_size = remaining_size;
    memory = write m.memory address descriptor;
  })

-- The `for` at level 3, with `count` descriptors to go from `address` on.
unfoldable pub map_pages : ℕ → ℕ → ℕ → Mapping → Outcome Mapping
unfolding page_descriptor put_leaf
map_pages zero address permission m = done m
map_pages (suc count) address permission m = do
  m' ← put_leaf address (page_descriptor m.physical_address permission) page_size m
  if m'.remaining_size == 0 then done m' else map_pages count (address + 8) permission m'
