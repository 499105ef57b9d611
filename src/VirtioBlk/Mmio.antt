-- ===== src/VirtioBlk/Mmio.antt =====
-- The registers of the virtio block device, src/mmio/virtio_blk.rs.
use mini_visor.Base.{
  ℕ, ◌-◌, ◌*◌, Bool, true, false, none, some, Outcome, done, ◌>>=◌, u32, clear_bits, ◌>>>◌, ◌==◌,
  leb, ltb, if◌then◌else◌,
}
use mini_visor.Vm.{Vm, get_physical_address}
use mini_visor.VirtioBlk.{VirtioBlkMmio, place_rings}
use mini_visor.Base.{divide, mul64}
use mini_visor.VirtioBlk.Operation.{Disk, Device, operation}

abbrev pub bool_value : Bool → ℕ
bool_value true = 1
bool_value false = 0

unfoldable pub read : VirtioBlkMmio → ℕ → Outcome ℕ
read b offset =
    if offset == 0x000
    then done 0x74726976
    else if offset == 0x004
    then done 0x01
    else if offset == 0x008
    then done 0x02
    else if offset == 0x00c
    then done 0x554d4551
    else if offset == 0x010
    then done 0x00
    else if offset == 0x034
    then done 1024
    else if offset == 0x044
    then done (bool_value b.queue_ready)
    else if offset == 0x040
    then divide b.descriptor b.page_size
    else if offset == 0x060
    then done b.interrupt_status
    else if offset == 0x070
    then done b.status
    else if leb 0x100 offset
    then (let config_offset = offset - 0x100 in
        if ltb config_offset 8 then done (b.file_size >>> 9 >>> (config_offset * 8)) else done 0)
    else done 0

-- A write of VIRTIO_MMIO_QUEUE_NUM.
unfoldable pub set_queue_num : ℕ → VirtioBlkMmio → Outcome VirtioBlkMmio
unfolding place_rings
set_queue_num value b = place_rings (record b { queue_size = value })

-- A write of VIRTIO_MMIO_STATUS.
unfoldable pub set_status : ℕ → VirtioBlkMmio → VirtioBlkMmio
set_status value b =
    if value == 0
    then record b {
      queue_size = 0;
      queue_ready = false;
      page_size = 4096;
      interrupt_status = 0;
      status = 0;
      descriptor = 0;
      avail_ring = 0;
      used_ring = 0;
      last_avail_id = 0;
      used_id = 0;
    }
    else record b { status = u32 value }

module _ {S : Type 0} (vm : Vm S) where
  -- A write of VIRTIO_MMIO_QUEUE_PFN.
  unfoldable pub set_queue_pfn : ℕ → VirtioBlkMmio → Outcome VirtioBlkMmio
  unfolding place_rings get_physical_address
  set_queue_pfn value b = do
    virtual_address ← mul64 value b.page_size
    address ← get_physical_address vm virtual_address
    elim address [ none ↦ done b | some a ↦ place_rings (record b { descriptor = a }) ]

module _ {S D : Type 0} (vm : Vm S) (fat32 : Disk D) where
  -- `fuel` and `chain` are those of `operation`.
  unfoldable pub write : ℕ → ℕ → ℕ → ℕ → Device D → Outcome (Device D)
  unfolding set_queue_num set_queue_pfn set_status operation
  write fuel chain offset value s =
      if offset == 0x028
      then done (record s { blk = record s.blk { page_size = value } })
      else if offset == 0x038
      then (do blk ← set_queue_num value s.blk; done (record s { blk = blk }))
      else if offset == 0x040
      then (do blk ← set_queue_pfn vm value s.blk; done (record s { blk = blk }))
      else if offset == 0x050
      then (if value == 0 then operation vm fat32 fuel chain s else done s)
      else if offset == 0x064
      then done (record s {
        blk = record s.blk { interrupt_status = clear_bits 32 s.blk.interrupt_status (u32 value) };
      })
      else if offset == 0x070
      then done (record s { blk = set_status value s.blk })
      else done s
