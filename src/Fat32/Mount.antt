-- ===== src/Fat32/Mount.antt =====
-- `new` of src/fat32.rs: the boot record, the table and the root directory are read from the device.
use mini_visor.Base.{
  ℕ, zero, suc, ◌+◌, ◌*◌, ◌^◌, true, false, Option, none, some, Outcome, done, panic, ◌>>=◌, unwrap,
  add64, sub64, mul64, clear_bits, Memory, read_bytes, bytes_at, same_bytes, List, [], ◌∷◌, ◌==◌,
  leb, not, if◌then◌else◌,
}
use mini_visor.Paging.{allocate_pages}
use mini_visor.VirtioBlk.Operation.{Disk}
use mini_visor.Fat32.{Fat32, Io, cluster_to_sector, read_sectors}
use mini_visor.Fat32.Read.{free_pages, pages_of}

abbrev pub fat32_signature : List ℕ
fat32_signature = b'F' ∷ b'A' ∷ b'T' ∷ b'3' ∷ b'2' ∷ b' ' ∷ b' ' ∷ b' ' ∷ []

-- `lba_size.ilog2()`, with the bits of the word to go.
unfoldable pub ilog2_from : ℕ → ℕ → ℕ
ilog2_from zero n = 0
ilog2_from (suc bits) n = if leb (2 ^ suc bits) n then suc bits else ilog2_from bits n

unfoldable pub ilog2 : ℕ → Outcome ℕ
unfolding ilog2_from
ilog2 n = if n == 0 then panic else done (ilog2_from 63 n)

-- What the boot record says of the volume; the addresses of the two tables are set later.
unfoldable pub read_bpb : Memory → ℕ → ℕ → ℕ → Fat32
unfolding read_bytes
read_bpb memory bpb_address base_lba lba_size = record {
  base_lba = base_lba;
  lba_size = lba_size;
  bytes_per_sector = read_bytes 2 memory (bpb_address + 11);
  sectors_per_cluster = memory (bpb_address + 13);
  reserved_sectors = read_bytes 2 memory (bpb_address + 14);
  fat_sectors = read_bytes 4 memory (bpb_address + 36);
  number_of_fats = read_bytes 2 memory (bpb_address + 16);
  fat = 0;
  root_directory_list = 0;
}

-- `((fat_size - 1) & !(lba_size - 1)) + lba_size`
unfoldable pub fat_size_of : Fat32 → Outcome ℕ
fat_size_of f = do
  last ← sub64 (f.fat_sectors * f.bytes_per_sector) 1
  mask ← sub64 f.lba_size 1
  add64 (clear_bits 64 last mask) f.lba_size

module _ {D : Type 0} (blk : Disk D) (fuel_of_free : ℕ) where
  -- The root directory, and the end of `new`.
  unfoldable pub read_root : Fat32 → ℕ → ℕ → Io D → Outcome (Option Fat32 × Io D)
  unfolding ilog2 allocate_pages cluster_to_sector read_sectors free_pages
  read_root f root_cluster size s = do
    let pages = pages_of (f.sectors_per_cluster * f.bytes_per_sector)
    align ← ilog2 f.lba_size
    allocated ← allocate_pages pages align s.allocator
    (root_directory_list, allocator) ← unwrap allocated
    let f' : Fat32 = record f { root_directory_list = root_directory_list }
    root_sector ← cluster_to_sector f' root_cluster
    (is_ok, s') ←
        read_sectors blk f' root_directory_list root_sector f.sectors_per_cluster
          (record s { allocator = allocator })
    elim is_ok [
      | true ↦ done (some f', s')
      | false ↦ (do
        without_root ← free_pages fuel_of_free root_directory_list pages s'.allocator
        without_fat ← free_pages fuel_of_free f.fat (pages_of size) without_root
        done (none, record s' { allocator = without_fat }))
    ]

  -- The table, after the boot record.
  unfoldable pub read_fat : Fat32 → ℕ → Io D → Outcome (Option Fat32 × Io D)
  unfolding fat_size_of ilog2 allocate_pages read_root free_pages
  read_fat f root_cluster s = do
    size ← fat_size_of f
    align ← ilog2 f.lba_size
    allocated ← allocate_pages (pages_of size) align s.allocator
    (fat, allocator) ← unwrap allocated
    base ← mul64 f.base_lba f.lba_size
    fat_address ← add64 base (f.reserved_sectors * f.bytes_per_sector)
    (is_ok, memory, disk) ← blk.read fat fat_address size s.memory s.disk
    elim is_ok [
      | true ↦
          read_root (record f { fat = fat }) root_cluster size
            (record s { memory = memory; allocator = allocator; disk = disk })
      | false ↦ (do
        freed ← free_pages fuel_of_free fat (pages_of size) allocator
        done (none, record s { memory = memory; allocator = freed; disk = disk }))
    ]

  -- `bpb_address` is that of the buffer on the stack.
  unfoldable pub new : ℕ → ℕ → ℕ → Io D → Outcome (Option Fat32 × Io D)
  unfolding read_bpb read_fat read_bytes
  new bpb_address base_lba lba_size s = do
    base ← mul64 base_lba lba_size
    (is_ok, memory, disk) ← blk.read bpb_address base 512 s.memory s.disk
    let s' : Io D = record s { memory = memory; disk = disk }
    if not is_ok
        then done (none, s')
        else if same_bytes (bytes_at memory (bpb_address + 82) 8) fat32_signature
        then read_fat (read_bpb memory bpb_address base_lba lba_size)
            (read_bytes 4 memory (bpb_address + 44)) s'
        else done (none, s')
