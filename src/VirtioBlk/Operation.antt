-- ===== src/VirtioBlk/Operation.antt =====
-- What src/mmio/virtio_blk.rs does when the guest notifies a queue. The file behind the device is
-- read and written by src/fat32.rs, whose two operations are a record on a state of the disk. Both
-- loops follow the guest's memory, so they run on fuel that the caller gives: a round for each
-- request, and for each descriptor of a request. Where the code returns early the table of descriptors
-- is null, or the request is refused before its first transfer, so no transfer is lost.
use mini_visor.Base.{
  ℕ, zero, suc, ◌+◌, ◌*◌, ◌^◌, Bool, Option, none, some, Outcome, done, out_of_fuel, ◌>>=◌, add64,
  u64, bit_and, bit_or, not, ◌==◌, if◌then◌else◌,
}
use mini_visor.Cpu.{Cpu}
use mini_visor.Gic.Distributor.{GicDistributorMmio, trigger_interrupt}
use mini_visor.Vm.{Vm, get_physical_address}
use mini_visor.VirtioBlk.{
  VirtioBlkMmio, VirtQueueDesc, get_descriptor, get_descriptor_id, get_next_avail_id, write_used,
  virtio_blk_int_id,
}
use mini_visor.Base.{Memory, add32, read_bytes}

-- `fat32.read` and `fat32.write`: an address, an offset in the file and a size; whether it succeeds.
pub record Disk (D : Type 0) : Type 0 where
  pub read : ℕ → ℕ → ℕ → Memory → D → Outcome (Bool × Memory × D)
  pub write : ℕ → ℕ → ℕ → Memory → D → Outcome (Bool × Memory × D)

-- The device, and what it works on.
pub record Device (D : Type 0) : Type 0 where
  pub blk : VirtioBlkMmio
  pub memory : Memory
  pub disk : D
  pub distributor : GicDistributorMmio
  pub cpu : Cpu

-- What is known of a request after its data: the last descriptor, the size, and the status.
pub record Request (D : Type 0) : Type 0 where
  pub last : VirtQueueDesc
  pub total_size : ℕ
  pub status : ℕ
  pub device : Device D

module _ {S D : Type 0} (vm : Vm S) (fat32 : Disk D) where
  -- The `loop` over the descriptors of a request; `none` where the code returns.
  unfoldable pub transfer :
      ℕ → Bool → ℕ → ℕ → ℕ → VirtQueueDesc → Device D → Outcome (Option (Request D))
  unfolding get_descriptor get_physical_address
  transfer zero is_write offset total_size status descriptor s = out_of_fuel
  transfer (suc fuel) is_write offset total_size status descriptor s = do
    next ← get_descriptor s.blk s.memory descriptor.next
    elim next [
      | none ↦ done none
      | some d ↦
          if bit_and d.flags 1 == 0
          then done
              (some (record { last = d; total_size = total_size; status = status; device = s }))
          else do
            total_size' ← add32 total_size d.length
            address ← get_physical_address vm d.address
            elim address [
              | none ↦ transfer fuel is_write offset total_size' 1 d s
              | some a ↦ (do
                (is_ok, memory, disk) ←
                    (if is_write
                      then fat32.write a offset d.length s.memory s.disk
                      else fat32.read a offset d.length s.memory s.disk)
                offset' ← add64 offset d.length
                transfer fuel is_write offset' total_size' (if is_ok then status else 1) d
                    (record s { memory = memory; disk = disk }))
            ]
    ]

  -- The status byte, if its address is one of the guest's RAM.
  unfoldable pub put_status : Request D → Outcome (ℕ × Device D)
  unfolding get_physical_address
  put_status r = do
    address ← get_physical_address vm r.last.address
    elim address [
      | none ↦ done (r.total_size, r.device)
      | some a ↦ (do
        total_size ← add32 r.total_size r.last.length
        done (
          total_size,
          record r.device { memory = λ p. if p == a then r.status else r.device.memory p },
        ))
    ]

  -- One request, whose first descriptor is `descriptor_id`; `none` where the code returns.
  unfoldable pub serve : ℕ → ℕ → Device D → Outcome (Option (Device D))
  unfolding get_descriptor get_physical_address transfer put_status write_used read_bytes
  serve fuel descriptor_id s = do
    first ← get_descriptor s.blk s.memory descriptor_id
    elim first [
      | none ↦ done none
      | some request ↦ if not (request.length == 16) then done none else do
        address ← get_physical_address vm request.address
        elim address [
          | none ↦ done none
          | some a ↦ (do
            let is_write = read_bytes 4 s.memory a == 1
            let offset = u64 (read_bytes 8 s.memory (a + 8) * 2 ^ 9)
            if bit_and request.flags 1 == 0 then done none else do
              transferred ← transfer fuel is_write offset 0 0 request s
              elim transferred [
                | none ↦ done none
                | some r ↦ (do
                  (total_size, s') ← put_status r
                  (blk, memory) ← write_used s'.blk s'.memory descriptor_id total_size
                  done (some (record s' { blk = blk; memory = memory })))
              ])
        ]
    ]

  unfoldable pub operation : ℕ → ℕ → Device D → Outcome (Device D)
  unfolding get_next_avail_id get_descriptor_id serve trigger_interrupt
  operation zero chain s = out_of_fuel
  operation (suc fuel) chain s = do
    (next, blk) ← get_next_avail_id s.blk s.memory
    elim next [
      | none ↦ (do
        (distributor, cpu) ← trigger_interrupt virtio_blk_int_id none s.distributor s.cpu
        done (record s {
          blk = record blk { interrupt_status = bit_or blk.interrupt_status 1 };
          distributor = distributor;
          cpu = cpu;
        }))
      | some id ↦ (do
        let s' : Device D = record s { blk = blk }
        descriptor_id ← get_descriptor_id blk s.memory id
        elim descriptor_id [
          | none ↦ done s'
          | some d ↦ (do
            served ← serve chain d s'
            elim served [ none ↦ done s' | some s'' ↦ operation fuel chain s'' ])
        ])
    ]
