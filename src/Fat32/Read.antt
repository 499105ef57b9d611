-- ===== src/Fat32/Read.antt =====
-- `read` of src/fat32.rs. Its inner loop takes at least one byte of the request in a round, and runs on
-- fuel of the length and two rounds. Its outer loop may follow the table for ever, so its rounds
-- are given by the caller, beyond the first one.
use mini_visor.Base.{
  ℕ, zero, suc, ◌+◌, ◌-◌, ◌*◌, ◌/◌, ◌^◌, Bool, true, false, Option, none, some, Outcome, done,
  panic, out_of_fuel, ◌>>=◌, ◌>>◌, assert, add64, sub64, add32, mul64, divide, u32, u64, clear_bits,
  max, Memory, ◌==◌, leb, ltb, if◌then◌else◌, ◌&&◌,
}
use mini_visor.Allocator.{MemoryAllocator, ok, err, panic as panics, out_of_fuel as stops}
use mini_visor.Allocator.Frees.{free}
use mini_visor.Paging.{allocate_pages}
use mini_visor.VirtioBlk.Operation.{Disk}
use mini_visor.Fat32.{
  Fat32, FileInfo, Io, cluster_to_sector, get_next_cluster, skip_clusters, read_sectors,
}

-- `free_pages` of src/main.rs, which drops an error. Each error of `free` leaves the allocator as it
-- was, and `fuel` is that of `free`.
unfoldable pub free_pages : ℕ → ℕ → ℕ → MemoryAllocator → Outcome MemoryAllocator
free_pages fuel address number_of_pages s =
    elim (free fuel s address (u64 (number_of_pages * 2 ^ 12))) [
      | ok s' ↦ done s'
      | err e ↦ done s
      | panics ↦ panic
      | stops ↦ out_of_fuel
    ]

-- The variables of the inner loop.
pub record Run : Type 0 where
  pub sectors : ℕ
  pub bytes : ℕ
  pub sector_offset : ℕ
  pub data_offset : ℕ
  pub data_offset_backup : ℕ
  pub cluster : ℕ

abbrev pub bytes_per_cluster : Fat32 → ℕ
bytes_per_cluster f = f.sectors_per_cluster * f.bytes_per_sector

-- Whole sectors of the offset are skipped.
unfoldable pub skip_sectors : Fat32 → Run → Outcome Run
skip_sectors f r =
    if ltb f.bytes_per_sector r.data_offset
    then (do
      offset ← divide r.data_offset f.bytes_per_sector
      let sector_offset = u32 offset
      skipped ← mul64 sector_offset f.bytes_per_sector
      data_offset ← sub64 r.data_offset skipped
      done (record r {
        sector_offset = sector_offset;
        data_offset = data_offset;
        data_offset_backup = data_offset;
      }))
    else done r

-- The last cluster of a request: `left` bytes, the offset included.
unfoldable pub last_cluster : Fat32 → ℕ → ℕ → Run → Outcome Run
last_cluster f length left r = do
  count ← divide (max left 1 - 1) f.bytes_per_sector
  more ← add64 1 count
  sectors ← add32 r.sectors (u32 more)
  done (record r { sectors = sectors; bytes = length })

-- A whole cluster.
unfoldable pub whole_cluster : Fat32 → Run → Outcome Run
whole_cluster f r = do
  sectors ← add32 r.sectors f.sectors_per_cluster
  rest ← sub64 (bytes_per_cluster f) r.data_offset
  bytes ← add64 r.bytes rest
  done (record r { sectors = sectors; bytes = bytes })

-- The inner loop of `read`: as many clusters as follow one another on the device.
unfoldable pub read_run : ℕ → Fat32 → Memory → ℕ → Run → Outcome (Option Run)
unfolding skip_sectors last_cluster whole_cluster get_next_cluster
read_run zero f memory length r = out_of_fuel
read_run (suc fuel) f memory length r = do
  r₁ ← skip_sectors f r
  rest ← sub64 length r₁.bytes
  left ← add64 rest r₁.data_offset
  elim (leb left (bytes_per_cluster f)) [
    | true ↦ (do r₂ ← last_cluster f length left r₁; done (some r₂))
    | false ↦ (do
      r₂ ← whole_cluster f r₁
      elim (get_next_cluster f memory r₂.cluster) [
        | none ↦ done none
        | some next ↦ (do
          following ← add32 r₂.cluster 1
          elim (next == following) [
            | true ↦ read_run fuel f memory length (record r₂ { data_offset = 0; cluster = next })
            | false ↦ done (some r₂)
          ])
      ])
  ]

-- The variables at the start of a round of the outer loop.
abbrev pub start_run : ℕ → ℕ → Run
start_run cluster data_offset = record {
  sectors = 0;
  bytes = 0;
  sector_offset = 0;
  data_offset = data_offset;
  data_offset_backup = data_offset;
  cluster = cluster;
}

-- `copy_nonoverlapping`
abbrev pub copy : Memory → ℕ → ℕ → ℕ → Memory
copy memory from to length a =
    if leb to a && ltb a (to + length) then memory (from + (a - to)) else memory a

-- What is read of a run through a buffer of its own, if it does not start at a sector.
abbrev pub pages_of : ℕ → ℕ
pages_of size = size / 2 ^ 12 + 1

unfoldable pub aligned_size : Fat32 → ℕ → Outcome ℕ
aligned_size f sectors = do
  size ← mul64 sectors f.bytes_per_sector
  mask ← sub64 f.lba_size 1
  add64 (clear_bits 64 size mask) f.lba_size

-- `fuel` is that of `free`, and the rounds of the outer loop after the first.
module _ {D : Type 0} (blk : Disk D) (fuel : ℕ) where
  -- The transfer of a run into a buffer of the allocator, and from there to the caller's.
  unfoldable pub read_through : Fat32 → ℕ → ℕ → ℕ → ℕ → ℕ → ℕ → ℕ → Io D → Outcome (Bool × Io D)
  unfolding allocate_pages free_pages read_sectors
  read_through f buffer_address buffer_pointer data_offset size sector sectors bytes s = do
    allocated ← allocate_pages (pages_of size) 0 s.allocator
    elim allocated [
      | none ↦ done (false, s)
      | some r ↦ (do
        (is_ok, s') ← read_sectors blk f r.0 sector sectors (record s { allocator = r.1 })
        assert (if is_ok then buffer_pointer == 0 else true)
        allocator ← free_pages fuel r.0 (pages_of size) s'.allocator
        done (
          is_ok,
          record s' {
            memory =
                if is_ok
                then copy s'.memory (r.0 + data_offset) buffer_address bytes
                else s'.memory;
            allocator = allocator;
          },
        ))
    ]

  -- The transfer of one run.
  unfoldable pub read_one : Fat32 → ℕ → ℕ → ℕ → Run → Io D → Outcome (Bool × Io D)
  unfolding aligned_size cluster_to_sector read_through read_sectors
  read_one f buffer_address buffer_pointer first_cluster r s = do
    size ← aligned_size f r.sectors
    first ← cluster_to_sector f first_cluster
    sector ← add32 first r.sector_offset
    if r.data_offset_backup == 0
        then (do
          buffer ← add64 buffer_address buffer_pointer
          read_sectors blk f buffer sector r.sectors s)
        else read_through f buffer_address buffer_pointer r.data_offset_backup size sector r.sectors
            r.bytes s

  -- The outer loop of `read`, with `length` bytes to read in all, of which `buffer_pointer` are.
  -- The inner loop counts to the whole length in each run.
  unfoldable pub read_runs : ℕ → Fat32 → ℕ → ℕ → ℕ → ℕ → ℕ → Io D → Outcome (Option ℕ × Io D)
  read_runs zero f buffer_address length data_offset cluster buffer_pointer s = out_of_fuel
  read_runs (suc rounds) f buffer_address length data_offset cluster buffer_pointer s = do
    run ← read_run (suc (suc length)) f s.memory length (start_run cluster data_offset)
    elim run [
      | none ↦ done (none, s)
      | some r ↦ (do
        (is_ok, s') ← read_one f buffer_address buffer_pointer cluster r s
        elim is_ok [
          | false ↦ done (none, s')
          | true ↦ (do
            pointer ← add64 buffer_pointer r.bytes
            elim (length == pointer) [
              | true ↦ done (some pointer, s')
              | false ↦ elim (get_next_cluster f s'.memory r.cluster) [
                | none ↦ done (none, s')
                | some next ↦ read_runs rounds f buffer_address length 0 next pointer s'
              ]
            ])
        ])
    ]

  -- `read`, after the length is cut to the end of the file.
  unfoldable pub read_cut : Fat32 → FileInfo → ℕ → ℕ → ℕ → Io D → Outcome (Option ℕ × Io D)
  read_cut f file buffer_address offset length s = do
    clusters_to_skip ← divide offset (bytes_per_cluster f)
    let data_offset = offset - clusters_to_skip * bytes_per_cluster f
    elim (skip_clusters clusters_to_skip f s.memory file.entry_cluster) [
      | none ↦ done (none, s)
      | some cluster ↦ read_runs (suc fuel) f buffer_address length data_offset cluster 0 s
    ]

  unfoldable pub read : Fat32 → FileInfo → ℕ → ℕ → ℕ → Io D → Outcome (Option ℕ × Io D)
  read f file buffer_address offset length s = do
    end ← add64 offset length
    if ltb file.file_size end
        then if leb file.file_size offset
          then done (some 0, s)
          else read_cut f file buffer_address offset (file.file_size - offset) s
        else read_cut f file buffer_address offset length s
