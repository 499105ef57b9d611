-- ===== src/Boot/Volume.antt =====
-- `init_fat32` of src/main.rs: the partition table of the disk.
use mini_visor.Base.{
  ℕ, zero, suc, ◌+◌, true, false, Option, none, Outcome, done, ◌>>=◌, ◌>>◌, assert, unwrap,
  read_bytes, ◌==◌,
}
use mini_visor.VirtioBlk.Operation.{Disk}
use mini_visor.Fat32.{Fat32, Io}
use mini_visor.Fat32.Mount.{new}

abbrev pub partition_table_base : ℕ
partition_table_base = 0x1BE

module _ {D : Type 0} (blk : Disk D) (fuel_of_free : ℕ) where
  -- The loop over the entries of 16 bytes, with `left` of them to go. `bpb_address` is that of the
  -- buffer of `Fat32::new`.
  unfoldable pub first_fat32 : ℕ → ℕ → ℕ → Io D → Outcome (Option Fat32 × Io D)
  unfolding read_bytes
  first_fat32 zero entry bpb_address s = done (none, s)
  first_fat32 (suc left) entry bpb_address s = elim (s.memory (entry + 4) == 0x0C) [
    | true ↦ new blk fuel_of_free bpb_address (read_bytes 4 s.memory (entry + 8)) 512 s
    | false ↦ first_fat32 left (entry + 16) bpb_address s
  ]

  -- `mbr` is the address of the buffer on the stack.
  unfoldable pub init_fat32 : ℕ → ℕ → Io D → Outcome (Fat32 × Io D)
  unfolding first_fat32 read_bytes
  init_fat32 mbr bpb_address s = do
    (is_ok, memory, disk) ← blk.read mbr 0 512 s.memory s.disk
    assert is_ok
    assert (read_bytes 2 memory (mbr + 510) == 0xAA55)
    (fat32, s') ←
        first_fat32 4 (mbr + partition_table_base) bpb_address
          (record s { memory = memory; disk = disk })
    f ← unwrap fat32
    done (f, s')
