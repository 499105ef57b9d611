-- ===== src/Fat32.antt =====
-- The FAT32 reader, src/fat32.rs: its state, and the walk along the file allocation table. Memory is
-- a function from addresses to bytes, and the block device is a record of two operations on a state
-- of its own, as that of a file is in VirtioBlk/Operation.
pub mod Read
pub mod Write
pub mod Names
pub mod FileName
pub mod Mount
pub mod Chain
pub mod Runs
pub mod Rounds
pub mod OnDevice
pub mod WriteRuns
pub mod Contents
pub mod Stores
pub mod RoundTrip
pub mod Device
use mini_visor.Base.{
  ℕ, zero, suc, ◌+◌, ◌-◌, ◌*◌, ◌/◌, ◌%◌, ◌^◌, Bool, true, false, ◌&&◌, Option, none, some, Outcome,
  done, panic, ◌>>=◌, add64, add32, sub32, mul32, mul64, u64, Memory, read_bytes, ◌==◌, leb, ltb,
  if◌then◌else◌,
}
use mini_visor.Allocator.{MemoryAllocator}
use mini_visor.VirtioBlk.Operation.{Disk}

pub record Fat32 : Type 0 where
  pub base_lba : ℕ
  pub lba_size : ℕ
  pub bytes_per_sector : ℕ
  pub sectors_per_cluster : ℕ
  pub reserved_sectors : ℕ
  pub fat_sectors : ℕ
  pub number_of_fats : ℕ
  pub fat : ℕ
  pub root_directory_list : ℕ

pub record FileInfo : Type 0 where
  pub entry_cluster : ℕ
  pub file_size : ℕ

-- What an operation works on: the memory, the allocator behind it, and the block device.
pub record Io (D : Type 0) : Type 0 where
  pub memory : Memory
  pub allocator : MemoryAllocator
  pub disk : D

unfoldable pub get_file_size : FileInfo → ℕ
get_file_size file = file.file_size

unfoldable pub cluster_to_sector : Fat32 → ℕ → Outcome ℕ
cluster_to_sector f cluster = do
  fats ← mul32 f.number_of_fats f.fat_sectors
  start ← add32 f.reserved_sectors fats
  index ← sub32 cluster 2
  sectors ← mul32 index f.sectors_per_cluster
  add32 start sectors

-- The number of entries of the table: `fat_sectors * bytes_per_sector / size_of::<u32>()`.
abbrev pub fat_entries : Fat32 → ℕ
fat_entries f = f.fat_sectors * f.bytes_per_sector / 4

-- The product of a `u32` and a `u16` fits.
unfoldable pub get_next_cluster : Fat32 → Memory → ℕ → Option ℕ
unfolding read_bytes
get_next_cluster f memory cluster =
    if ltb cluster (fat_entries f)
    then (let n : ℕ = read_bytes 4 memory (f.fat + 4 * cluster) in
        if leb 2 n && ltb n 0x0FFFFFF8 then some n else none)
    else none

-- `next_cluster!`, as often as clusters are skipped.
unfoldable pub skip_clusters : ℕ → Fat32 → Memory → ℕ → Option ℕ
unfolding get_next_cluster
skip_clusters zero f memory cluster = some cluster
skip_clusters (suc n) f memory cluster = elim (get_next_cluster f memory cluster) [
  | none ↦ none
  | some next ↦ skip_clusters n f memory next
]

-- The address of a sector on the device.
unfoldable pub sector_address : Fat32 → ℕ → Outcome ℕ
sector_address f base_sector = do
  base ← mul64 f.base_lba f.lba_size
  distance ← mul64 base_sector f.bytes_per_sector
  add64 base distance

module _ {D : Type 0} (blk : Disk D) where
  unfoldable pub read_sectors : Fat32 → ℕ → ℕ → ℕ → Io D → Outcome (Bool × Io D)
  unfolding sector_address
  read_sectors f buffer base_sector sectors s = do
    address ← sector_address f base_sector
    length ← mul64 sectors f.bytes_per_sector
    (is_ok, memory, disk) ← blk.read buffer address length s.memory s.disk
    done (is_ok, record s { memory = memory; disk = disk })

  unfoldable pub write_sectors : Fat32 → ℕ → ℕ → ℕ → Io D → Outcome (Bool × Io D)
  unfolding sector_address
  write_sectors f buffer base_sector sectors s = do
    address ← sector_address f base_sector
    length ← mul64 sectors f.bytes_per_sector
    (is_ok, memory, disk) ← blk.write buffer address length s.memory s.disk
    done (is_ok, record s { memory = memory; disk = disk })
