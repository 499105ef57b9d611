-- ===== src/Fat32/RoundTrip.antt =====
-- `write` and `read` of src/fat32.rs together.
use mini_visor.Base.{
  ℕ, suc, ◌+◌, ◌-◌, ◌*◌, ◌^◌, ◌≤◌, ◌<◌, ◌≡◌, ap, sym, ◌∙◌, min, some, Memory, Outcome, Option, done,
  arith,
}
use native.Mathlib.Nat.{mul-pos}
use mini_visor.VirtioBlk.Operation.{Disk}
use mini_visor.Fat32.{Fat32, FileInfo, Io, skip_clusters}
use mini_visor.Fat32.Read.{bytes_per_cluster, read}
use mini_visor.Fat32.Write.{write}
use mini_visor.Fat32.Chain.{
  IsConsecutive, byte_address, cluster_address, byte_address-IsConsecutive,
}
use mini_visor.Fat32.OnDevice.{IsOnDevice}
use mini_visor.Fat32.Contents.{Serves, read-gives_bytes_of_file}
use mini_visor.Fat32.Stores.{Stores, write-puts_bytes_of_file}

same_result :
    {D : Type 0} {l l' : ℕ} {s s' : Io D}
    → ◌≡◌ {A = Outcome (Option ℕ × Io D)} (done (some l, s)) (done (some l', s'))
    → s ≡ s'
same_result e = cc

same_address : {a b : ℕ} → Option.some a ≡ some b → a ≡ b
same_address e = cc

-- What is written to a file is read back: on a device that, when it is ready, serves and stores
-- every request of whole 512-byte blocks below 4 GiB within its capacity, and is ready before each
-- of the two, after a write of whole sectors has returned that starts at a cluster before the end
-- of the file, and whose clusters lie on the device, are of whole blocks and follow one another
-- there, a read of the same part of the file, with the same clusters in the table and whatever
-- else in memory, gives the bytes that stood in the buffer of the write.
pub read-write_file :
    {D : Type 0} (blk : Disk D) (fuel : ℕ) (f : Fat32) (IsReady : D → Type 0) (contents : D → ℕ → ℕ)
    (capacity c n : ℕ)
    → Serves blk IsReady contents capacity
    → Stores blk IsReady contents capacity
    → IsOnDevice f capacity c n
    → (file : FileInfo) (k from to length sectors : ℕ) (s written : Io D) (later : Memory)
    → skip_clusters k f s.memory file.entry_cluster ≡ some c
    → IsConsecutive f s.memory c n
    → skip_clusters k f later file.entry_cluster ≡ some c
    → IsConsecutive f later c n
    → 0 < sectors
    → k * bytes_per_cluster f < file.file_size
    → k * bytes_per_cluster f + length < 2 ^ 64
    → min length (file.file_size - k * bytes_per_cluster f) ≡ sectors * f.bytes_per_sector
    → sectors * f.bytes_per_sector ≤ suc n * bytes_per_cluster f
    → from < 2 ^ 64
    → to < 2 ^ 64
    → IsReady s.disk
    → IsReady written.disk
    → write blk fuel f file from (k * bytes_per_cluster f) length s
      ≡ done (some (sectors * f.bytes_per_sector), written)
    → (memory : Memory) × (disk : D) × (read blk fuel f file to
          (k * bytes_per_cluster f)
          length
          (record written { memory = later })
        ≡ done
            (some (sectors * f.bytes_per_sector), record written { memory = memory; disk = disk }))
      × ((i : ℕ) → i < sectors * f.bytes_per_sector → memory (to + i) ≡ s.memory (from + i))
read-write_file {D} blk fuel f IsReady contents capacity c n serves stores on file k from to length
      sectors s written later start follows start' follows' pos lt fits whole le from_fits to_fits
      ready ready' e =
    let length_pos : 0 < sectors * f.bytes_per_sector = mul-pos pos on.sector_pos in
    let cut_pos : 0 < length = omega arith in
    let cut_le : min length (file.file_size - k * bytes_per_cluster f)
        ≤ suc n * bytes_per_cluster f =
      omega arith in
    let stored =
      write-puts_bytes_of_file blk fuel f IsReady contents capacity c n stores on file k from length
        sectors s start follows pos lt fits whole le from_fits ready in
    let same : record s { memory = stored.0; disk = stored.1 } ≡ written =
      same_result (sym stored.2 ∙ e) in
    let given =
      read-gives_bytes_of_file blk fuel f IsReady contents capacity c n serves on file k to length
        (record written { memory = later }) start' follows' cut_pos lt fits cut_le to_fits ready' in
    (
      given.0,
      given.1,
      given.2 ∙ ap (λ l. done (some l, record written { memory = given.0; disk = given.1 })) whole,
      λ i i_lt.
          let place : byte_address f s.memory file.entry_cluster (k * bytes_per_cluster f + i)
              ≡ some (cluster_address f c + i) =
            byte_address-IsConsecutive f s.memory file.entry_cluster k c n i on.cluster_pos
              on.cluster_ge start follows (omega arith) in
          let place' : byte_address f later file.entry_cluster (k * bytes_per_cluster f + i)
              ≡ some (cluster_address f c + i) =
            byte_address-IsConsecutive f later file.entry_cluster k c n i on.cluster_pos
              on.cluster_ge start' follows' (omega arith) in
          let got = given.3 i (omega arith) in
          let put = stored.3 i i_lt in
          got.2
          ∙ ap (contents written.disk) (same_address (sym got.1 ∙ place' ∙ sym place ∙ put.1))
          ∙ ap (λ (x : Io D). contents x.disk put.0) (sym same)
          ∙ put.2,
    )
