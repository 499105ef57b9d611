-- ===== src/Examples/Mappings.antt =====
-- Stage 2 translation tables at concrete addresses.
use mini_visor.Base.{ℕ, ◌+◌, ◌-◌, ◌*◌, ◌/◌, ◌%◌, ◌<◌, ◌≤◌, ◌≡◌, ◌⊎◌, refl, arith, some, done, min}
use mini_visor.Allocator.{
  size_to_page_order, get_end_address, set_range, align_address_and_available_size,
}
use mini_visor.Allocator.Chains.{chain_entry_to_free_list}
use mini_visor.Allocator.Uses.{allocate}
use mini_visor.Allocator.Region.{region}
use mini_visor.Paging.{Mapping, init_table}
use mini_visor.Paging.Tables.{Stage2, map_level, init_stage2_translation_table, vtcr_of}
use mini_visor.Paging.Translate.{walk_page, map_level-walk_page}
use mini_visor.Paging.Lookup.{IsInitial, init_stage2_translation_table_lem}

abbrev no_memory : ℕ → ℕ
no_memory a = 0

-- Two pages, from 0x40000000 and from 0x80000000.
abbrev two_pages : Mapping
two_pages = record {
  physical_address = 0x40000000;
  intermediate_physical_address = 0x80000000;
  remaining_size = 0x2000;
  memory = no_memory;
  allocator = region 4096 65536;
}

map_level-walk_page_example :
    (m' : Mapping) × (map_level 0 0x8000 3 512 two_pages ≡ done (some m'))
    × ((x : ℕ)
        → 0x80000 * 4096 ≤ x
        → x < (0x80000 + min (512 - 0x80000 % 512) 2) * 4096
        → walk_page m'.memory 0x8000 x ≡ some (0x40000 * 4096 + (x - 0x80000 * 4096), 3))
    × ((x : ℕ)
        → x / 4096 / 512 ≡ 0x80000 / 512
        → (x < 0x80000 * 4096) ⊎ ((0x80000 + min (512 - 0x80000 % 512) 2) * 4096 ≤ x)
        → walk_page m'.memory 0x8000 x ≡ walk_page no_memory 0x8000 x)
map_level-walk_page_example =
    map_level-walk_page 0x8000 3 0x40000 0x80000 2 two_pages (omega arith) (omega arith) refl refl
      refl (omega arith) (omega arith)

abbrev reset : Stage2
reset = record {
  memory = no_memory;
  allocator = region 4096 65536;
  id_aa64mmfr0_el1 = 0x1120;
  vtcr_el2 = 0;
  vttbr_el2 = 0;
}

abbrev initial : Stage2
initial = record reset {
  memory = init_table no_memory 4096 512;
  allocator = region 8192 61440;
  vtcr_el2 = vtcr_of 0;
  vttbr_el2 = 4096;
}

a_table : init_stage2_translation_table reset ≡ done initial
unfolding init_stage2_translation_table allocate get_end_address set_range chain_entry_to_free_list
    align_address_and_available_size size_to_page_order
a_table = refl

init_stage2_translation_table_lem_example : IsInitial 0 initial
init_stage2_translation_table_lem_example = init_stage2_translation_table_lem reset initial a_table
