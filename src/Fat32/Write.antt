-- ===== src/Fat32/Write.antt =====
-- `write` of src/fat32.rs, with the fuel of `read`.
use mini_visor.Base.{
  ℕ, zero, suc, ◌-◌, ◌*◌, Bool, true, false, Option, none, some, Outcome, done, out_of_fuel, ◌>>=◌,
  add64, sub64, add32, divide, Memory, ◌==◌, leb, ltb, if◌then◌else◌,
}
use mini_visor.VirtioBlk.Operation.{Disk}
use mini_visor.Fat32.{
  Fat32, FileInfo, Io, cluster_to_sector, get_next_cluster, skip_clusters, write_sectors,
}
use mini_visor.Fat32.Read.{
  Run, bytes_per_cluster, skip_sectors, last_cluster, whole_cluster, start_run,
}

-- The inner loop of `write`, which refuses a rest that is less than a sector.
unfoldable pub write_run : ℕ → Fat32 → Memory → ℕ → Run → Outcome (Option Run)
unfolding skip_sectors last_cluster whole_cluster get_next_cluster
write_run zero f memory length r = out_of_fuel
write_run (suc fuel) f memory length r = do
  rest ← sub64 length r.bytes
  elim (ltb rest f.bytes_per_sector) [
    | true ↦ done none
    | false ↦ (do
      r₁ ← skip_sectors f r
      left ← add64 rest r₁.data_offset
      elim (leb left (bytes_per_cluster f)) [
        | true ↦ (do r₂ ← last_cluster f length left r₁; done (some r₂))
        | false ↦ (do
          r₂ ← whole_cluster f r₁
          elim (get_next_cluster f memory r₂.cluster) [
            | none ↦ done none
            | some next ↦ (do
              following ← add32 r₂.cluster 1
              elim (next == following) [
                | true ↦
                    write_run fuel f memory length (record r₂ { data_offset = 0; cluster = next })
                | false ↦ done (some r₂)
              ])
          ])
      ])
  ]

module _ {D : Type 0} (blk : Disk D) where
  -- The transfer of one run, which has to start at a sector.
  unfoldable pub write_one : Fat32 → ℕ → ℕ → ℕ → Run → Io D → Outcome (Bool × Io D)
  unfolding cluster_to_sector write_sectors
  write_one f buffer_address buffer_pointer first_cluster r s =
      if r.data_offset_backup == 0
      then (do
        first ← cluster_to_sector f first_cluster
        sector ← add32 first r.sector_offset
        buffer ← add64 buffer_address buffer_pointer
        write_sectors blk f buffer sector r.sectors s)
      else done (false, s)

  -- The outer loop of `write`.
  unfoldable pub write_runs : ℕ → Fat32 → ℕ → ℕ → ℕ → ℕ → ℕ → Io D → Outcome (Option ℕ × Io D)
  write_runs zero f buffer_address length data_offset cluster buffer_pointer s = out_of_fuel
  write_runs (suc rounds) f buffer_address length data_offset cluster buffer_pointer s = do
    run ← write_run (suc (suc length)) f s.memory length (start_run cluster data_offset)
    elim run [
      | none ↦ done (none, s)
      | some r ↦ (do
        (is_ok, s') ← write_one f buffer_address buffer_pointer cluster r s
        elim is_ok [
          | false ↦ done (none, s')
          | true ↦ (do
            pointer ← add64 buffer_pointer r.bytes
            elim (length == pointer) [
              | true ↦ done (some pointer, s')
              | false ↦ elim (get_next_cluster f s'.memory r.cluster) [
                | none ↦ done (none, s')
                | some next ↦ write_runs rounds f buffer_address length 0 next pointer s'
              ]
            ])
        ])
    ]

-- `fuel` is the rounds of the outer loop after the first.
module _ {D : Type 0} (blk : Disk D) (fuel : ℕ) where
  -- `write`, after the length is cut to the end of the file.
  unfoldable pub write_cut : Fat32 → FileInfo → ℕ → ℕ → ℕ → Io D → Outcome (Option ℕ × Io D)
  write_cut f file buffer_address offset length s = do
    clusters_to_skip ← divide offset (bytes_per_cluster f)
    let data_offset = offset - clusters_to_skip * bytes_per_cluster f
    elim (skip_clusters clusters_to_skip f s.memory file.entry_cluster) [
      | none ↦ done (none, s)
      | some cluster ↦ write_runs blk (suc fuel) f buffer_address length data_offset cluster 0 s
    ]

  unfoldable pub write : Fat32 → FileInfo → ℕ → ℕ → ℕ → Io D → Outcome (Option ℕ × Io D)
  write f file buffer_address offset length s = do
    end ← add64 offset length
    if ltb file.file_size end
        then if leb file.file_size offset
          then done (some 0, s)
          else write_cut f file buffer_address offset (file.file_size - offset) s
        else write_cut f file buffer_address offset length s
