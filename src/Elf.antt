-- ===== src/Elf.antt =====
-- The reader of ELF headers, src/elf.rs. The memory is a function from addresses to bytes; a header
-- that the source reads in place is read into a record, its numbers with the low byte first.
pub mod Headers
use mini_visor.Base.{
  ℕ, zero, suc, ◌+◌, ◌-◌, ◌*◌, ◌^◌, Bool, true, false, ◌&&◌, List, [], ◌∷◌, Option, none, some,
  add64, ◌==◌, bytes_at, same_bytes, if◌then◌else◌, Outcome, done, panic, out_of_fuel, ◌>>=◌,
}

abbrev pub elf_program_header_segment_load : ℕ
elf_program_header_segment_load = 1

pub record Elf64Header : Type 0 where
  pub address : ℕ
  pub e_ident : List ℕ
  pub e_type : ℕ
  pub e_machine : ℕ
  pub e_version : ℕ
  pub e_entry : ℕ
  pub e_phoff : ℕ
  pub e_shoff : ℕ
  pub e_flags : ℕ
  pub e_ehsize : ℕ
  pub e_phentsize : ℕ
  pub e_phnum : ℕ
  pub e_shentsize : ℕ
  pub e_shnum : ℕ
  pub e_shstrndx : ℕ

pub record Elf64ProgramHeader : Type 0 where
  pub p_type : ℕ
  pub p_flags : ℕ
  pub p_offset : ℕ
  pub p_vaddr : ℕ
  pub p_paddr : ℕ
  pub p_filesz : ℕ
  pub p_memsz : ℕ
  pub p_align : ℕ

pub record Elf64ProgramHeaderIter : Type 0 where
  pub pointer : ℕ
  pub size : ℕ
  pub remaining : ℕ

module _ (memory : ℕ → ℕ) where
  -- The number that `n` bytes hold, with the low byte first.
  abbrev pub read_le : ℕ → ℕ → ℕ
  read_le p zero = 0
  read_le p (suc n) = memory p + 2 ^ 8 * read_le (p + 1) n

  unfoldable pub header_at : ℕ → Elf64Header
  header_at a = record {
    address = a;
    e_ident = bytes_at memory a 16;
    e_type = read_le (a + 16) 2;
    e_machine = read_le (a + 18) 2;
    e_version = read_le (a + 20) 4;
    e_entry = read_le (a + 24) 8;
    e_phoff = read_le (a + 32) 8;
    e_shoff = read_le (a + 40) 8;
    e_flags = read_le (a + 48) 4;
    e_ehsize = read_le (a + 52) 2;
    e_phentsize = read_le (a + 54) 2;
    e_phnum = read_le (a + 56) 2;
    e_shentsize = read_le (a + 58) 2;
    e_shnum = read_le (a + 60) 2;
    e_shstrndx = read_le (a + 62) 2;
  }

  unfoldable pub program_header_at : ℕ → Elf64ProgramHeader
  program_header_at a = record {
    p_type = read_le a 4;
    p_flags = read_le (a + 4) 4;
    p_offset = read_le (a + 8) 8;
    p_vaddr = read_le (a + 16) 8;
    p_paddr = read_le (a + 24) 8;
    p_filesz = read_le (a + 32) 8;
    p_memsz = read_le (a + 40) 8;
    p_align = read_le (a + 48) 8;
  }

  -- The magic number, the class (byte 4), the version of the header (byte 6) and of the file.
  unfoldable pub new : ℕ → Option Elf64Header
  unfolding header_at
  new address =
      if same_bytes (bytes_at memory address 4) (0x7f ∷ 0x45 ∷ 0x4c ∷ 0x46 ∷ [])
        && memory (address + 4) == 2
        && memory (address + 6) == 1
        && (header_at address).e_version == 1
      then some (header_at address)
      else none

  unfoldable pub get_program_headers : Elf64Header → Outcome Elf64ProgramHeaderIter
  get_program_headers h = do
    pointer ← add64 h.address h.e_phoff
    done (record { pointer = pointer; size = h.e_phentsize; remaining = h.e_phnum })

  -- `Iterator::next`: the item, and the iterator behind it.
  unfoldable pub next :
      Elf64ProgramHeaderIter → Outcome (Option Elf64ProgramHeader × Elf64ProgramHeaderIter)
  next it = if it.remaining == 0 then done (none, it) else do
    pointer ← add64 it.pointer it.size
    done (
      some (program_header_at it.pointer),
      record it { pointer = pointer; remaining = it.remaining - 1 },
    )

  -- A `for` loop over the iterator sees these items.
  unfoldable pub items : ℕ → Elf64ProgramHeaderIter → Outcome (List Elf64ProgramHeader)
  unfolding next
  items zero it = out_of_fuel
  items (suc fuel) it = do
    (item, it') ← next it
    elim item [ none ↦ done [] | some header ↦ (do rest ← items fuel it'; done (header ∷ rest)) ]
