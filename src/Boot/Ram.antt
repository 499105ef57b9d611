-- ===== src/Boot/Ram.antt =====
-- The memory of the machine in src/main.rs: what is free at the start, and the global allocator.
use mini_visor.Base.{
  ℕ, suc, ◌-◌, true, false, none, Outcome, done, panic, out_of_fuel, ◌>>=◌, unwrap, add64, sub64,
  clear_bits, List, [], ◌∷◌, ◌==◌,
}
use mini_visor.Dtb.{Dtb, get_total_size}
use mini_visor.Dtb.Search.{search_node}
use mini_visor.Dtb.Property.{read_reg_property}
use mini_visor.Elf.{Elf64ProgramHeader, elf_program_header_segment_load, get_program_headers, items}
use mini_visor.Elf as Elf
use mini_visor.Allocator.{MemoryAllocator, ok, err, panic as faults, out_of_fuel as stops}
use mini_visor.Allocator.Uses.{allocate, reserve_memory}
use mini_visor.Allocator.Frees.{free}
use mini_visor.Paging.{page_size}
use mini_visor.Boot.{answer, expect}

abbrev pub stack_size : ℕ
stack_size = 0x10000

-- `memory`
abbrev pub memory_name : List ℕ
memory_name = b'm' ∷ b'e' ∷ b'm' ∷ b'o' ∷ b'r' ∷ b'y' ∷ []

-- The segments that the hypervisor's own image is loaded into.
unfoldable pub reserve_segments :
    List Elf64ProgramHeader → MemoryAllocator → Outcome MemoryAllocator
reserve_segments [] s = done s
reserve_segments (p ∷ headers) s = elim (p.p_type == elf_program_header_segment_load) [
  | true ↦ (do
    end ← add64 p.p_paddr p.p_memsz
    s' ← expect (reserve_memory s p.p_paddr p.p_memsz 0)
    reserve_segments headers s')
  | false ↦ reserve_segments headers s
]

-- The stack of the first CPU.
unfoldable pub reserve_stack : ℕ → MemoryAllocator → Outcome MemoryAllocator
reserve_stack stack_pointer s = do
  last ← sub64 stack_pointer 1
  stack_end ← add64 (clear_bits 64 last (page_size - 1)) page_size
  stack_start ← sub64 stack_end stack_size
  expect (reserve_memory s stack_start stack_size 0)

-- The sums are those of the messages, which are checked as well.
unfoldable pub setup_memory :
    (ℕ → ℕ) → ℕ → Dtb → ℕ → ℕ → ℕ → MemoryAllocator → Outcome MemoryAllocator
unfolding reserve_segments reserve_stack
setup_memory memory fuel dtb dtb_address elf_address stack_pointer s = do
  found ← answer (search_node memory fuel dtb memory_name none)
  node ← unwrap found
  region ← answer (read_reg_property memory fuel dtb node 0)
  (start, size) ← unwrap region
  end ← add64 start size
  with_ram ← expect (free fuel s start size)
  dtb_end ← add64 dtb_address (get_total_size memory dtb)
  without_dtb ← expect (reserve_memory with_ram dtb_address (get_total_size memory dtb) 0)
  elf_header ← unwrap (Elf.new memory elf_address)
  headers ← get_program_headers memory elf_header
  segments ← items memory (suc elf_header.e_phnum) headers
  without_segments ← reserve_segments segments without_dtb
  reserve_stack stack_pointer without_segments

-- `GlobalAlloc::alloc`, with a null pointer for an error, which leaves the allocator as it was.
unfoldable pub alloc : ℕ → ℕ → MemoryAllocator → Outcome (ℕ × MemoryAllocator)
alloc size align s = elim (allocate s size align) [
  | ok r ↦ done r
  | err e ↦ done (0, s)
  | faults ↦ panic
  | stops ↦ out_of_fuel
]

unfoldable pub dealloc : ℕ → ℕ → ℕ → MemoryAllocator → Outcome MemoryAllocator
dealloc fuel ptr size s = elim (free fuel s ptr size) [
  | ok s' ↦ done s'
  | err e ↦ done s
  | faults ↦ panic
  | stops ↦ out_of_fuel
]
