-- ===== src/Fat32/Stores.antt =====
-- `write` of src/fat32.rs on a request that starts at a cluster, is a number of whole sectors, and
-- lies in clusters that follow one another on the device.
use mini_visor.Base.{
  ℕ, suc, ◌+◌, ◌-◌, ◌*◌, ◌/◌, ◌%◌, ◌^◌, ◌≤◌, ◌<◌, ◌≡◌, refl, ap, ◌∙◌, min, some, Memory, Bool-cases,
  inl, inr, done, true, false, add32, add64, mul64, divide, ltb, leb, ◌==◌, ◌>>=◌, arith, ◌⊎◌, ◌≢◌,
  ◌≢◌,
}
use native.Mathlib.Nat.{mul-pos, div-eq_of_lt, add-mul-div_right, mul-div_cancel, add-mul}
use mini_visor.VirtioBlk.Operation.{Disk}
use mini_visor.Fat32.{Fat32, FileInfo, Io, skip_clusters, write_sectors}
use mini_visor.Fat32.Read.{bytes_per_cluster, start_run}
use mini_visor.Fat32.Write.{write_run, write_one, write_runs, write_cut, write}
use mini_visor.Fat32.Chain.{
  cluster_sector, cluster_address, byte_address, IsConsecutive, byte_address-IsConsecutive,
}
use mini_visor.Fat32.Runs.{after, ended}
use mini_visor.Fat32.WriteRuns.{write_run-IsConsecutive}
use mini_visor.Fat32.OnDevice.{
  IsOnDevice, cluster_to_sector-IsOnDevice, sector_address-IsOnDevice, aligned-mul,
  cluster_address-aligned,
}

-- What is relied on of the device: when it is ready, a request within its capacity for whole blocks
-- of 512 bytes, of a length that fits in a descriptor of the queue, succeeds, and changes the bytes
-- of its range alone. Other requests are refused by `operation_sync` of src/drivers/virtio_blk.rs,
-- and nothing is relied on for them.
unfoldable pub Stores : {D : Type 0} → Disk D → (D → Type 0) → (D → ℕ → ℕ) → ℕ → Type 0
Stores {D} blk IsReady contents capacity =
    (buffer address length : ℕ) (memory : Memory) (disk : D)
    → IsReady disk
    → address % 512 ≡ 0
    → length % 512 ≡ 0
    → length < 2 ^ 32
    → address + length ≤ capacity
    → (memory' : Memory) × (disk' : D) × (blk.write buffer address length memory disk
        ≡ done (true, memory', disk'))
      × ((i : ℕ) → i < length → contents disk' (address + i) ≡ memory (buffer + i))
      × ((a : ℕ) → (a < address) ⊎ (address + length ≤ a) → contents disk' a ≡ contents disk a)

module _ {D : Type 0} (blk : Disk D) (f : Fat32) (capacity c n : ℕ) (on : IsOnDevice f capacity c n)
    (buffer sectors : ℕ) (pos : 0 < sectors)
    (le : sectors * f.bytes_per_sector ≤ suc n * bytes_per_cluster f)
    (buffer_fits : buffer < 2 ^ 64) where
  -- The sectors of a request of whole sectors.
  sectors_of_whole : 1 + (sectors * f.bytes_per_sector - 1) / f.bytes_per_sector ≡ sectors
  sectors_of_whole =
      let size_pos = on.sector_pos in
      let one_less : sectors * f.bytes_per_sector - 1
          ≡ (f.bytes_per_sector - 1) + (sectors - 1) * f.bytes_per_sector =
        omega (
          arith,
          add-mul (sectors - 1) 1 f.bytes_per_sector,
          ap (λ x. x * f.bytes_per_sector) back,
        ) in
      let quotient : (sectors * f.bytes_per_sector - 1) / f.bytes_per_sector
          ≡ ((f.bytes_per_sector - 1) + (sectors - 1) * f.bytes_per_sector) / f.bytes_per_sector =
        ap (λ x. x / f.bytes_per_sector) one_less in
      let zeroth : (f.bytes_per_sector - 1) / f.bytes_per_sector ≡ 0 = div-eq_of_lt (omega arith) in
      omega (arith, quotient, add-mul-div_right (f.bytes_per_sector - 1) (sectors - 1) size_pos)
    where
      back : sectors - 1 + 1 ≡ sectors
      back = omega arith

  -- The request to the device that a run of the extent makes.
  write_one-IsOnDevice :
      (cluster : ℕ) (s : Io D) (memory' : Memory) (disk' : D)
      → blk.write (buffer + 0) (cluster_address f c) (sectors * f.bytes_per_sector) s.memory s.disk
        ≡ done (true, memory', disk')
      → write_one blk f buffer 0 c (ended f (sectors * f.bytes_per_sector) cluster) s
        ≡ done (true, record s { memory = memory'; disk = disk' })
  unfolding write_one write_sectors
  write_one-IsOnDevice cluster s memory' disk' e =
      let fit = on.bytes_fit in
      let end = on.bytes_end in
      let fit' = on.sectors_fit in
      let whole : mul64 sectors f.bytes_per_sector ≡ done (sectors * f.bytes_per_sector) =
        ground arith in
      let sector : add32 (cluster_sector f c) 0 ≡ done (cluster_sector f c) = ground arith in
      let start : add64 buffer 0 ≡ done (buffer + 0) = ground arith in
      rw
        (
          cluster_to_sector-IsOnDevice f capacity c n on,
          sector,
          start,
          sectors_of_whole,
          sector_address-IsOnDevice f capacity c n on,
          whole,
          e,
          write_one,
          write_sectors,
          ◌>>=◌,
        )
        refl

  write_runs-IsOnDevice :
      (fuel : ℕ) (s : Io D) (memory' : Memory) (disk' : D)
      → IsConsecutive f s.memory c n
      → blk.write (buffer + 0) (cluster_address f c) (sectors * f.bytes_per_sector) s.memory s.disk
        ≡ done (true, memory', disk')
      → write_runs blk (suc fuel) f buffer (sectors * f.bytes_per_sector) 0 c 0 s
        ≡ done (some (sectors * f.bytes_per_sector), record s { memory = memory'; disk = disk' })
  unfolding write_runs
  write_runs-IsOnDevice fuel s memory' disk' follows e =
      let length : ℕ = sectors * f.bytes_per_sector in
      let fit = on.bytes_fit in
      let end = on.bytes_end in
      let fit' = on.sectors_fit in
      let start_pos = on.cluster_pos in
      let length_pos : 0 < length = mul-pos pos on.sector_pos in
      let start : start_run c 0 ≡ after f c 0 = ground arith in
      let counted : (cluster : ℕ) × (write_run (suc (suc length)) f s.memory length (after f c 0)
            ≡ done (some (ended f length cluster))) =
        write_run-IsConsecutive f s.memory sectors c n on.sector_pos on.cluster_pos (omega arith) le
          (omega arith) (omega arith) on.cluster_fits follows (suc (suc length)) 0 (omega arith)
          (omega arith) (omega arith) in
      let pointer : add64 0 length ≡ done length = ground arith in
      let same : (length == length) ≡ true = ground arith in
      rw
        (
          start,
          counted.1,
          write_one-IsOnDevice counted.0 s memory' disk' e,
          pointer,
          same,
          write_runs,
          ◌>>=◌,
        )
        refl

  write_cut-IsOnDevice :
      (fuel : ℕ) (file : FileInfo) (k : ℕ) (s : Io D) (memory' : Memory) (disk' : D)
      → skip_clusters k f s.memory file.entry_cluster ≡ some c
      → IsConsecutive f s.memory c n
      → blk.write (buffer + 0) (cluster_address f c) (sectors * f.bytes_per_sector) s.memory s.disk
        ≡ done (true, memory', disk')
      → write_cut blk fuel f file buffer (k * bytes_per_cluster f) (sectors * f.bytes_per_sector) s
        ≡ done (some (sectors * f.bytes_per_sector), record s { memory = memory'; disk = disk' })
  unfolding write_cut
  write_cut-IsOnDevice fuel file k s memory' disk' start follows e =
      let size_pos = on.cluster_pos in
      let quotient : divide (k * bytes_per_cluster f) (bytes_per_cluster f) ≡ done k =
        ground (arith, mul-div_cancel k size_pos) in
      let aligned : k * bytes_per_cluster f - k * bytes_per_cluster f ≡ 0 = omega arith in
      rw
        (
          quotient,
          start,
          aligned,
          write_runs-IsOnDevice fuel s memory' disk' follows e,
          write_cut,
          ◌>>=◌,
        )
        refl

-- The length is cut to the end of the file.
write-cut :
    {D : Type 0} (blk : Disk D) (fuel : ℕ) (f : Fat32) (file : FileInfo) (buffer offset length : ℕ)
    (s : Io D)
    → offset < file.file_size
    → offset + length < 2 ^ 64
    → write blk fuel f file buffer offset length s
      ≡ write_cut blk fuel f file buffer offset (min length (file.file_size - offset)) s
unfolding write
write-cut blk fuel f file buffer offset length s lt fits =
    elim (Bool-cases (ltb file.file_size (offset + length))) [
      | inl beyond ↦
          let end : add64 offset length ≡ done (offset + length) = ground arith in
          let inside : leb file.file_size offset ≡ false = ground arith in
          let cut : min length (file.file_size - offset) ≡ file.file_size - offset = ground arith in
          rw (end, beyond, inside, cut, write, ◌>>=◌) refl
      | inr within ↦
          let end : add64 offset length ≡ done (offset + length) = ground arith in
          let cut : min length (file.file_size - offset) ≡ length = ground arith in
          rw (end, within, cut, write, ◌>>=◌) refl
    ]

-- An address that is none of a range lies before it or after it.
outside :
    (at length address : ℕ)
    → ((i : ℕ) → i < length → at + i ≢ address)
    → (address < at) ⊎ (at + length ≤ address)
outside at length address other = elim (Bool-cases (ltb address at)) [
  | inl before ↦ inl (ground arith)
  | inr not_before ↦ elim (Bool-cases (leb (at + length) address)) [
    | inl behind ↦ inr (ground arith)
    | inr inside ↦
        let lt : address - at < length = ground arith in
        let same : at + (address - at) ≡ address = ground arith in
        absurd (other (address - at) lt same)
  ]
]

-- On a device that, when it is ready, stores every request of whole 512-byte blocks below 4 GiB
-- within its capacity, and is ready, a write of whole sectors that starts at a cluster before the
-- end of the file, and whose clusters lie on the device, are of whole blocks and follow one another
-- there, succeeds: the bytes of the buffer stand where the table puts these bytes of the
-- file, and every other byte of the device keeps its value.
pub write-puts_bytes_of_file :
    {D : Type 0} (blk : Disk D) (fuel : ℕ) (f : Fat32) (IsReady : D → Type 0) (contents : D → ℕ → ℕ)
    (capacity c n : ℕ)
    → Stores blk IsReady contents capacity
    → IsOnDevice f capacity c n
    → (file : FileInfo) (k buffer length sectors : ℕ) (s : Io D)
    → skip_clusters k f s.memory file.entry_cluster ≡ some c
    → IsConsecutive f s.memory c n
    → 0 < sectors
    → k * bytes_per_cluster f < file.file_size
    → k * bytes_per_cluster f + length < 2 ^ 64
    → min length (file.file_size - k * bytes_per_cluster f) ≡ sectors * f.bytes_per_sector
    → sectors * f.bytes_per_sector ≤ suc n * bytes_per_cluster f
    → buffer < 2 ^ 64
    → IsReady s.disk
    → (memory : Memory) × (disk : D) × (write blk fuel f file buffer
          (k * bytes_per_cluster f)
          length
          s
        ≡ done (some (sectors * f.bytes_per_sector), record s { memory = memory; disk = disk }))
      × ((i : ℕ)
          → i < sectors * f.bytes_per_sector
          → (address : ℕ) × (byte_address f s.memory file.entry_cluster
                (k * bytes_per_cluster f + i)
              ≡ some address)
            × (contents disk address ≡ s.memory (buffer + i)))
      × ((address : ℕ)
          → ((i : ℕ)
              → i < sectors * f.bytes_per_sector
              → byte_address f s.memory file.entry_cluster (k * bytes_per_cluster f + i)
                ≢ some address)
          → contents disk address ≡ contents s.disk address)
unfolding Stores
write-puts_bytes_of_file blk fuel f IsReady contents capacity c n stores on file k buffer length
      sectors s start follows pos lt fits whole le buffer_fits ready =
    let here : buffer + 0 ≡ buffer = omega arith in
    let on_end = on.bytes_end in
    let request_fits = on.request_fits in
    let stored =
      stores (buffer + 0) (cluster_address f c) (sectors * f.bytes_per_sector) s.memory s.disk ready
        (cluster_address-aligned f capacity c n on)
        (aligned-mul sectors f.bytes_per_sector on.sector_aligned) (omega arith) (omega arith) in
    let place : (i : ℕ)
        → i < sectors * f.bytes_per_sector
        → byte_address f s.memory file.entry_cluster (k * bytes_per_cluster f + i)
          ≡ some (cluster_address f c + i) =
      λ i i_lt.
        byte_address-IsConsecutive f s.memory file.entry_cluster k c n i on.cluster_pos
          on.cluster_ge start follows (omega arith) in
    (
      stored.0,
      stored.1,
      write-cut blk fuel f file buffer (k * bytes_per_cluster f) length s lt fits
          ∙ ap (λ l. write_cut blk fuel f file buffer (k * bytes_per_cluster f) l s) whole
          ∙ write_cut-IsOnDevice blk f capacity c n on buffer sectors pos le buffer_fits fuel file k
              s stored.0 stored.1 start follows stored.2,
      (λ i i_lt.
          let shift : buffer + 0 + i ≡ buffer + i = omega arith in
          (cluster_address f c + i, place i i_lt, stored.3 i i_lt ∙ ap s.memory shift)),
      λ address other. stored.4 address (
          outside (cluster_address f c) (sectors * f.bytes_per_sector) address
            (λ i i_lt same. other i i_lt (place i i_lt ∙ ap some same))),
    )
