-- ===== src/Examples/Files.antt =====
-- A file of three clusters on a volume of 512-byte sectors, on a device that is a plain memory.
use mini_visor.Base.{
  ℕ, [], ◌∷◌, zero, suc, ◌+◌, ◌-◌, ◌<◌, ◌≡◌, ◌≢◌, ◌%◌, refl, inl, inr, some, Memory, done,
  out_of_fuel, true, ◌&&◌, leb, ltb, ◌==◌, if◌then◌else◌, arith,
}
use mini_visor.Allocator.{new}
use mini_visor.VirtioBlk.Operation.{Disk}
use mini_visor.Fat32.{Fat32, FileInfo, Io, get_next_cluster, skip_clusters}
use mini_visor.Fat32.Read.{read, read_run, start_run}
use mini_visor.Fat32.Write.{write, write_cut, write_runs, write_run, write_one}
use mini_visor.Fat32.Chain.{IsConsecutive, byte_address}
use mini_visor.Fat32.OnDevice.{IsOnDevice}
use mini_visor.Fat32.Contents.{Serves, read-gives_bytes_of_file}
use mini_visor.Fat32.Stores.{Stores, write-puts_bytes_of_file}
use mini_visor.Fat32.Rounds.{read_run-ne_out_of_fuel}
use mini_visor.Fat32.Names.{name_bytes}
use mini_visor.Fat32.FileName.{name_bytes_lem}
use mini_visor.Fat32.RoundTrip.{read-write_file}

-- `length` bytes at `to` are those of the other memory at `from`.
abbrev put : Memory → ℕ → Memory → ℕ → ℕ → Memory
put target to source from length p =
    if leb to p && ltb p (to + length) then source (from + (p - to)) else target p

abbrev flat : Disk Memory
flat = record {
  read =
      λ buffer address length memory disk. done (true, put memory buffer disk address length, disk);
  write = λ buffer address length memory disk.
      done (true, memory, put disk address memory buffer length);
}

put-inside :
    (target source : Memory) (to from length i : ℕ)
    → i < length
    → put target to source from length (to + i) ≡ source (from + i)
put-inside target source to from length i lt =
    let after : leb to (to + i) ≡ true = ground arith in
    let before : ltb (to + i) (to + length) ≡ true = ground arith in
    let distance : to + i - to ≡ i = omega arith in rw (after, before, distance) refl

flat-Serves : Serves flat (λ disk. Unit {0}) (λ disk. disk) 0x10000000
unfolding Serves
flat-Serves buffer address length memory disk ready blocks whole fits le = (
  put memory buffer disk address length,
  disk,
  refl,
  λ i lt. put-inside memory disk buffer address length i lt,
)

flat-Stores : Stores flat (λ disk. Unit {0}) (λ disk. disk) 0x10000000
unfolding Stores
flat-Stores buffer address length memory disk ready blocks whole fits le = (
  memory,
  put disk address memory buffer length,
  refl,
  (λ i lt. put-inside disk memory address buffer length i lt),
  λ a other. elim other [ inl before ↦ ground arith | inr behind ↦ ground arith ],
)

abbrev volume : Fat32
volume = record {
  base_lba = 2048;
  lba_size = 512;
  bytes_per_sector = 512;
  sectors_per_cluster = 1;
  reserved_sectors = 32;
  fat_sectors = 1;
  number_of_fats = 2;
  fat = 0x1000;
  root_directory_list = 0x2000;
}

-- Cluster 3 leads to 4, and 4 to 5.
abbrev table : Memory
table p = if p == 0x100c then 4 else if p == 0x1010 then 5 else 0

abbrev file : FileInfo
file = record { entry_cluster = 3; file_size = 1536 }

abbrev io : Memory → Io Memory
io memory = record { memory = memory; allocator = new; disk = λ p. p % 251 }

second_cluster : skip_clusters 1 volume table 3 ≡ some 4
unfolding skip_clusters
second_cluster = refl

follow : IsConsecutive volume table 4 1
unfolding IsConsecutive get_next_cluster
follow zero lt = refl
follow (suc i) lt = absurd (omega arith)

on_device : IsOnDevice volume 0x10000000 4 1
on_device = record {
  lba_pos = omega arith;
  sector_pos = omega arith;
  cluster_pos = omega arith;
  cluster_ge = omega arith;
  sectors_fit = omega arith;
  bytes_end = omega arith;
  cluster_fits = omega arith;
  bytes_fit = omega arith;
  lba_aligned = refl;
  sector_aligned = refl;
  request_fits = omega arith;
}

read-gives_bytes_of_file_example :
    (memory : Memory) × (disk : Memory) × (read flat 64 volume file 0x4000 512 2000 (io table)
      ≡ done (some 1024, record (io table) { memory = memory; disk = disk }))
    × ((i : ℕ)
        → i < 1024
        → (address : ℕ) × (byte_address volume table 3 (512 + i) ≡ some address)
          × (memory (0x4000 + i) ≡ address % 251))
read-gives_bytes_of_file_example =
    read-gives_bytes_of_file flat 64 volume (λ disk. Unit) (λ disk. disk) 0x10000000 4 1 flat-Serves
      on_device file 1 0x4000 2000 (io table) second_cluster follow (omega arith) (omega arith)
      (omega arith) (omega arith) (omega arith) tt

write-puts_bytes_of_file_example :
    (memory : Memory) × (disk : Memory) × (write flat 64 volume file 0x1000 512 2000 (io table)
      ≡ done (some 1024, record (io table) { memory = memory; disk = disk }))
    × ((i : ℕ)
        → i < 1024
        → (address : ℕ) × (byte_address volume table 3 (512 + i) ≡ some address)
          × (disk address ≡ table (0x1000 + i)))
    × ((address : ℕ)
        → ((i : ℕ) → i < 1024 → byte_address volume table 3 (512 + i) ≢ some address)
        → disk address ≡ address % 251)
write-puts_bytes_of_file_example =
    write-puts_bytes_of_file flat 64 volume (λ disk. Unit) (λ disk. disk) 0x10000000 4 1 flat-Stores
      on_device file 1 0x1000 2000 2 (io table) second_cluster follow (omega arith) (omega arith)
      (omega arith) refl (omega arith) (omega arith) tt

written :
    write flat 64 volume file 0x1000 512 2000 (io table)
    ≡ done (some 1024, record (io table) { disk = put (io table).disk 0x104800 table 0x1000 1024 })
unfolding write write_cut write_runs write_run write_one skip_clusters
written = refl

read-write_file_example :
    (memory : Memory) × (disk : Memory) × (read flat 64 volume file 0x4000 512 2000
        (record (io table) { disk = put (io table).disk 0x104800 table 0x1000 1024 })
      ≡ done (some 1024, record (io table) { memory = memory; disk = disk }))
    × ((i : ℕ) → i < 1024 → memory (0x4000 + i) ≡ table (0x1000 + i))
read-write_file_example =
    read-write_file flat 64 volume (λ disk. Unit) (λ disk. disk) 0x10000000 4 1 flat-Serves
      flat-Stores on_device file 1 0x1000 0x4000 2000 2 (io table)
      (record (io table) { disk = put (io table).disk 0x104800 table 0x1000 1024 }) table
      second_cluster follow second_cluster follow (omega arith) (omega arith) (omega arith) refl
      (omega arith) (omega arith) (omega arith) tt tt written

read_run-ne_out_of_fuel_example :
    (read_run 1026 volume table 1024 (start_run 4 0) ≢ out_of_fuel)
    × (write_run 1026 volume table 1024 (start_run 4 0) ≢ out_of_fuel)
read_run-ne_out_of_fuel_example = read_run-ne_out_of_fuel volume table 1024 4 0 (omega arith)

-- `DISK0` with the extension `IMG`
name_bytes_lem_example :
    name_bytes
      (b'D' ∷ b'I' ∷ b'S' ∷ b'K' ∷ b'0' ∷ b' ' ∷ b' ' ∷ b' ' ∷ [])
      (b'I' ∷ b'M' ∷ b'G' ∷ [])
    ≡ done (b'D' ∷ b'I' ∷ b'S' ∷ b'K' ∷ b'0' ∷ b'.' ∷ b'I' ∷ b'M' ∷ b'G' ∷ [])
name_bytes_lem_example =
    name_bytes_lem b'D' (b'I' ∷ b'S' ∷ b'K' ∷ b'0' ∷ b' ' ∷ b' ' ∷ b' ' ∷ [])
      (b'I' ∷ b'M' ∷ b'G' ∷ []) refl refl (refl, (refl, (refl, tt)))
