-- ===== src/Fat32/Device.antt =====
-- A file of src/fat32.rs as what src/mmio/virtio_blk.rs reads and writes for a guest.
use mini_visor.Base.{ℕ, Bool, true, false, Option, none, some, done, ◌>>=◌}
use mini_visor.Allocator.{MemoryAllocator}
use mini_visor.VirtioBlk.Operation.{Disk}
use mini_visor.Fat32.{Fat32, FileInfo}
use mini_visor.Fat32.Read.{read}
use mini_visor.Fat32.Write.{write}

-- `result.is_ok()` of a `Result<usize, ()>`.
abbrev pub is_ok : Option ℕ → Bool
is_ok none = false
is_ok (some n) = true

module _ {D : Type 0} (blk : Disk D) (fuel : ℕ) where
  -- The state behind the file is the allocator of the hypervisor and the device under the volume.
  unfoldable pub file_disk : Fat32 → FileInfo → Disk (MemoryAllocator × D)
  file_disk f file = record {
    read = λ address offset size memory d. (do
      (result, s) ←
          read blk fuel f file address offset size
            (record { memory = memory; allocator = d.0; disk = d.1 })
      done (is_ok result, s.memory, (s.allocator, s.disk)));
    write = λ address offset size memory d. (do
      (result, s) ←
          write blk fuel f file address offset size
            (record { memory = memory; allocator = d.0; disk = d.1 })
      done (is_ok result, s.memory, (s.allocator, s.disk)));
  }
