-- ===== src/VirtioBlk.antt =====
-- The virtio block device that a guest sees, src/mmio/virtio_blk.rs: its registers and its rings.
-- A pointer is an address, and null is 0. Of the file behind the device the registers use the size.
pub mod Operation
pub mod Mmio
pub mod Rings
use mini_visor.Base.{
  Memory, add16, mul64, remainder, read_bytes, write_bytes, ℕ, zero, suc, ◌+◌, ◌-◌, ◌*◌, ◌/◌, ◌%◌,
  ◌^◌, Bool, true, false, Option, none, some, Outcome, done, panic, ◌>>=◌, add64, sub64, u16,
  bit_and, clear_bits, ◌==◌, ltb, if◌then◌else◌,
}

pub record VirtioBlkMmio : Type 0 where
  pub file_size : ℕ
  pub interrupt_status : ℕ
  pub status : ℕ
  pub queue_size : ℕ
  pub queue_ready : Bool
  pub page_size : ℕ
  pub descriptor : ℕ
  pub avail_ring : ℕ
  pub used_ring : ℕ
  pub last_avail_id : ℕ
  pub used_id : ℕ

-- src/drivers/virtio.rs
pub record VirtQueueDesc : Type 0 where
  pub address : ℕ
  pub length : ℕ
  pub flags : ℕ
  pub next : ℕ

abbrev pub virtio_blk_int_id : ℕ
virtio_blk_int_id = 40

unfoldable pub new : ℕ → Outcome VirtioBlkMmio
new file_size =
    if bit_and file_size 0x1FF == 0
    then done (record {
      file_size = file_size;
      interrupt_status = 0;
      status = 0;
      queue_size = 0;
      queue_ready = false;
      page_size = 4096;
      descriptor = 0;
      avail_ring = 0;
      used_ring = 0;
      last_avail_id = 0;
      used_id = 0;
    })
    else panic

unfoldable pub get_descriptor : VirtioBlkMmio → Memory → ℕ → Outcome (Option VirtQueueDesc)
unfolding read_bytes
get_descriptor b memory id = if b.descriptor == 0 then done none else do
  a ← add64 b.descriptor (16 * id)
  done (
      some (record {
        address = read_bytes 8 memory a;
        length = read_bytes 4 memory (a + 8);
        flags = read_bytes 2 memory (a + 12);
        next = read_bytes 2 memory (a + 14);
      }))

unfoldable pub get_descriptor_id : VirtioBlkMmio → Memory → ℕ → Outcome (Option ℕ)
unfolding read_bytes
get_descriptor_id b memory id = if b.avail_ring == 0 then done none else do
  ring ← add64 b.avail_ring 4
  a ← add64 ring (2 * id)
  done (some (read_bytes 2 memory a))

unfoldable pub get_next_avail_id : VirtioBlkMmio → Memory → Outcome (Option ℕ × VirtioBlkMmio)
unfolding read_bytes
get_next_avail_id b memory =
    if b.last_avail_id == read_bytes 2 memory (b.avail_ring + 2) then done (none, b) else do
      next ← remainder b.last_avail_id (u16 b.queue_size)
      last_avail_id ← add16 b.last_avail_id 1
      done (some next, record b { last_avail_id = last_avail_id })

unfoldable pub write_used : VirtioBlkMmio → Memory → ℕ → ℕ → Outcome (VirtioBlkMmio × Memory)
unfolding write_bytes
write_used b memory id length = do
  slot ← remainder b.used_id (u16 b.queue_size)
  used_id ← add16 b.used_id 1
  ring ← add64 b.used_ring 4
  a ← add64 ring (8 * slot)
  let element = write_bytes 4 (write_bytes 4 memory a id) (a + 4) length
  done (record b { used_id = used_id }, write_bytes 2 element (b.used_ring + 2) used_id)

-- The places of the rings behind the descriptors.
unfoldable pub place_rings : VirtioBlkMmio → Outcome VirtioBlkMmio
place_rings b = do
  table ← mul64 16 b.queue_size
  avail_ring ← add64 b.descriptor table
  entries ← add64 3 b.queue_size
  ring ← mul64 2 entries
  top ← add64 avail_ring ring
  last ← sub64 top 1
  mask ← sub64 b.page_size 1
  used_ring ← add64 (clear_bits 64 last mask) b.page_size
  done (record b { avail_ring = avail_ring; used_ring = used_ring })
