-- ===== src/Fat32/Contents.antt =====
-- `read` of src/fat32.rs on a request that starts at a cluster and lies in clusters that follow one
-- another on the device.
use mini_visor.Base.{
  ℕ, suc, ◌+◌, ◌-◌, ◌*◌, ◌/◌, ◌%◌, ◌^◌, ◌≤◌, ◌<◌, ◌≡◌, refl, ap, ◌∙◌, min, some, Memory, Bool-cases,
  inl, inr, done, true, false, add32, add64, mul64, divide, ltb, leb, ◌==◌, ◌>>=◌, sym, arith,
}
use native.Mathlib.Nat.{mul-div_cancel, lt-div-mul-add, add-mul}
use mini_visor.VirtioBlk.Operation.{Disk}
use mini_visor.Fat32.{Fat32, FileInfo, Io, skip_clusters, read_sectors}
use mini_visor.Fat32.Read.{
  bytes_per_cluster, start_run, read_run, read_one, read_runs, read_cut, read,
}
use mini_visor.Fat32.Chain.{
  cluster_sector, cluster_address, byte_address, IsConsecutive, byte_address-IsConsecutive,
}
use mini_visor.Fat32.Runs.{after, ended, read_run-IsConsecutive}
use mini_visor.Fat32.OnDevice.{
  IsOnDevice, cluster_to_sector-IsOnDevice, sectors-IsOnDevice, sector_address-IsOnDevice,
  aligned_size-IsOnDevice, aligned-mul, cluster_address-aligned,
}

-- What is relied on of the device: when it is ready, a request within its capacity for whole blocks
-- of 512 bytes, of a length that fits in a descriptor of the queue, succeeds, and the buffer holds
-- the bytes of the device. Other requests are refused by `operation_sync` of
-- src/drivers/virtio_blk.rs, and nothing is relied on for them.
unfoldable pub Serves : {D : Type 0} → Disk D → (D → Type 0) → (D → ℕ → ℕ) → ℕ → Type 0
Serves {D} blk IsReady contents capacity =
    (buffer address length : ℕ) (memory : Memory) (disk : D)
    → IsReady disk
    → address % 512 ≡ 0
    → length % 512 ≡ 0
    → length < 2 ^ 32
    → address + length ≤ capacity
    → (memory' : Memory) × (disk' : D) × (blk.read buffer address length memory disk
        ≡ done (true, memory', disk'))
      × ((i : ℕ) → i < length → memory' (buffer + i) ≡ contents disk (address + i))

module _ {D : Type 0} (blk : Disk D) (fuel : ℕ) (f : Fat32) (capacity c n : ℕ)
    (on : IsOnDevice f capacity c n) (buffer length : ℕ) (pos : 0 < length)
    (le : length ≤ suc n * bytes_per_cluster f) (buffer_fits : buffer < 2 ^ 64) where
  -- The request to the device that a run of the extent makes.
  read_one-IsOnDevice :
      (cluster : ℕ) (s : Io D) (memory' : Memory) (disk' : D)
      → blk.read
          (buffer + 0)
          (cluster_address f c)
          ((1 + (length - 1) / f.bytes_per_sector) * f.bytes_per_sector)
          s.memory
          s.disk
        ≡ done (true, memory', disk')
      → read_one blk fuel f buffer 0 c (ended f length cluster) s
        ≡ done (true, record s { memory = memory'; disk = disk' })
  unfolding read_one read_sectors
  read_one-IsOnDevice cluster s memory' disk' e =
      let fit = on.bytes_fit in
      let end = on.bytes_end in
      let fit' = on.sectors_fit in
      let total : (1 + (length - 1) / f.bytes_per_sector) * f.bytes_per_sector
          ≤ suc n * bytes_per_cluster f =
        sectors-IsOnDevice f capacity c n on length pos le in
      let whole : mul64 (1 + (length - 1) / f.bytes_per_sector) f.bytes_per_sector
          ≡ done ((1 + (length - 1) / f.bytes_per_sector) * f.bytes_per_sector) =
        ground arith in
      let sector : add32 (cluster_sector f c) 0 ≡ done (cluster_sector f c) = ground arith in
      let start : add64 buffer 0 ≡ done (buffer + 0) = ground arith in
      rw
        (
          aligned_size-IsOnDevice f capacity c n on (1 + (length - 1) / f.bytes_per_sector)
              (omega arith),
          cluster_to_sector-IsOnDevice f capacity c n on,
          sector,
          start,
          sector_address-IsOnDevice f capacity c n on,
          whole,
          e,
          read_one,
          read_sectors,
          ◌>>=◌,
        )
        refl

  read_runs-IsOnDevice :
      (rounds : ℕ) (s : Io D) (memory' : Memory) (disk' : D)
      → IsConsecutive f s.memory c n
      → blk.read
          (buffer + 0)
          (cluster_address f c)
          ((1 + (length - 1) / f.bytes_per_sector) * f.bytes_per_sector)
          s.memory
          s.disk
        ≡ done (true, memory', disk')
      → read_runs blk fuel (suc rounds) f buffer length 0 c 0 s
        ≡ done (some length, record s { memory = memory'; disk = disk' })
  unfolding read_runs
  read_runs-IsOnDevice rounds s memory' disk' follows e =
      let fit = on.bytes_fit in
      let end = on.bytes_end in
      let fit' = on.sectors_fit in
      let start_pos = on.cluster_pos in
      let start : start_run c 0 ≡ after f c 0 = ground arith in
      let counted : (cluster : ℕ) × (read_run (suc (suc length)) f s.memory length (after f c 0)
            ≡ done (some (ended f length cluster))) =
        read_run-IsConsecutive f s.memory length c n on.sector_pos on.cluster_pos (omega arith) le
          (omega arith) (omega arith) on.cluster_fits follows (suc (suc length)) 0 (omega arith)
          (omega arith) (omega arith) in
      let pointer : add64 0 length ≡ done length = ground arith in
      let same : (length == length) ≡ true = ground arith in
      rw
        (
          start,
          counted.1,
          read_one-IsOnDevice counted.0 s memory' disk' e,
          pointer,
          same,
          read_runs,
          ◌>>=◌,
        )
        refl

  -- `read` of a request of the extent, after the length is cut to the end of the file.
  read_cut-IsOnDevice :
      (file : FileInfo) (k : ℕ) (s : Io D) (memory' : Memory) (disk' : D)
      → skip_clusters k f s.memory file.entry_cluster ≡ some c
      → IsConsecutive f s.memory c n
      → blk.read
          (buffer + 0)
          (cluster_address f c)
          ((1 + (length - 1) / f.bytes_per_sector) * f.bytes_per_sector)
          s.memory
          s.disk
        ≡ done (true, memory', disk')
      → read_cut blk fuel f file buffer (k * bytes_per_cluster f) length s
        ≡ done (some length, record s { memory = memory'; disk = disk' })
  unfolding read_cut
  read_cut-IsOnDevice file k s memory' disk' start follows e =
      let size_pos = on.cluster_pos in
      let quotient : divide (k * bytes_per_cluster f) (bytes_per_cluster f) ≡ done k =
        ground (arith, mul-div_cancel k size_pos) in
      let aligned : k * bytes_per_cluster f - k * bytes_per_cluster f ≡ 0 = omega arith in
      rw
        (
          quotient,
          start,
          aligned,
          read_runs-IsOnDevice fuel s memory' disk' follows e,
          read_cut,
          ◌>>=◌,
        )
        refl

-- The length is cut to the end of the file.
read-cut :
    {D : Type 0} (blk : Disk D) (fuel : ℕ) (f : Fat32) (file : FileInfo) (buffer offset length : ℕ)
    (s : Io D)
    → offset < file.file_size
    → offset + length < 2 ^ 64
    → read blk fuel f file buffer offset length s
      ≡ read_cut blk fuel f file buffer offset (min length (file.file_size - offset)) s
unfolding read
read-cut blk fuel f file buffer offset length s lt fits =
    elim (Bool-cases (ltb file.file_size (offset + length))) [
      | inl beyond ↦
          let end : add64 offset length ≡ done (offset + length) = ground arith in
          let inside : leb file.file_size offset ≡ false = ground arith in
          let cut : min length (file.file_size - offset) ≡ file.file_size - offset = ground arith in
          rw (end, beyond, inside, cut, read, ◌>>=◌) refl
      | inr within ↦
          let end : add64 offset length ≡ done (offset + length) = ground arith in
          let cut : min length (file.file_size - offset) ≡ length = ground arith in
          rw (end, within, cut, read, ◌>>=◌) refl
    ]

-- On a device that, when it is ready, serves every request of whole 512-byte blocks below 4 GiB
-- within its capacity, and is ready, a read of at least one byte that starts at a cluster before
-- the end of the file, and whose clusters lie on the device, are of whole blocks and follow one
-- another there, succeeds with the bytes of the file: all that were asked for, or all up to
-- its end, and each is the byte of the device where the table puts it.
pub read-gives_bytes_of_file :
    {D : Type 0} (blk : Disk D) (fuel : ℕ) (f : Fat32) (IsReady : D → Type 0) (contents : D → ℕ → ℕ)
    (capacity c n : ℕ)
    → Serves blk IsReady contents capacity
    → IsOnDevice f capacity c n
    → (file : FileInfo) (k buffer length : ℕ) (s : Io D)
    → skip_clusters k f s.memory file.entry_cluster ≡ some c
    → IsConsecutive f s.memory c n
    → 0 < length
    → k * bytes_per_cluster f < file.file_size
    → k * bytes_per_cluster f + length < 2 ^ 64
    → min length (file.file_size - k * bytes_per_cluster f) ≤ suc n * bytes_per_cluster f
    → buffer < 2 ^ 64
    → IsReady s.disk
    → (memory : Memory) × (disk : D) × (read blk fuel f file buffer
          (k * bytes_per_cluster f)
          length
          s
        ≡ done (
          some (min length (file.file_size - k * bytes_per_cluster f)),
          record s { memory = memory; disk = disk },
        ))
      × ((i : ℕ)
          → i < min length (file.file_size - k * bytes_per_cluster f)
          → (address : ℕ) × (byte_address f s.memory file.entry_cluster
                (k * bytes_per_cluster f + i)
              ≡ some address)
            × (memory (buffer + i) ≡ contents s.disk address))
unfolding Serves
read-gives_bytes_of_file blk fuel f IsReady contents capacity c n serves on file k buffer length s
      start follows pos lt fits le buffer_fits ready =
    let cut : ℕ = min length (file.file_size - k * bytes_per_cluster f) in
    let cut_pos : 0 < cut = ground arith in
    let here : buffer + 0 ≡ buffer = omega arith in
    let whole : (1 + (cut - 1) / f.bytes_per_sector) * f.bytes_per_sector
        ≤ suc n * bytes_per_cluster f =
      sectors-IsOnDevice f capacity c n on cut cut_pos le in
    let on_end = on.bytes_end in
    let request_fits = on.request_fits in
    let blocks =
      aligned-mul (1 + (cut - 1) / f.bytes_per_sector) f.bytes_per_sector on.sector_aligned in
    let served =
      serves (buffer + 0) (cluster_address f c)
        ((1 + (cut - 1) / f.bytes_per_sector) * f.bytes_per_sector) s.memory s.disk ready
        (cluster_address-aligned f capacity c n on) blocks (omega arith) (omega arith) in
    (
      served.0,
      served.1,
      read-cut blk fuel f file buffer (k * bytes_per_cluster f) length s lt fits
          ∙ read_cut-IsOnDevice blk fuel f capacity c n on buffer cut cut_pos le buffer_fits file k
              s served.0 served.1 start follows served.2,
      λ i i_lt.
          let total : cut ≤ (1 + (cut - 1) / f.bytes_per_sector) * f.bytes_per_sector = omega (
            arith,
            lt-div-mul-add {a = cut - 1} on.sector_pos,
            add-mul 1 ((cut - 1) / f.bytes_per_sector) f.bytes_per_sector,
          ) in
          let byte : served.0 (buffer + 0 + i) ≡ contents s.disk (cluster_address f c + i) =
            served.3 i (omega arith) in
          let shift : buffer + 0 + i ≡ buffer + i = omega arith in
          (
            cluster_address f c + i,
            byte_address-IsConsecutive f s.memory file.entry_cluster k c n i on.cluster_pos
                on.cluster_ge start follows (omega arith),
            ap served.0 (sym shift) ∙ byte,
          ),
    )
