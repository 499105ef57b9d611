-- ===== src/Examples/Rings.antt =====
-- The virtio block device at a concrete queue.
use mini_visor.Base.{ℕ, ◌+◌, ◌*◌, ◌%◌, ◌≤◌, ◌≡◌, refl, arith, false, [], some, done, ◌>>=◌}
use mini_visor.Vm.{Vm, get_physical_address}
use mini_visor.VirtioBlk.{VirtioBlkMmio}
use mini_visor.VirtioBlk.Mmio.{set_queue_num, set_queue_pfn}
use mini_visor.VirtioBlk.Rings.{queue_order_lem}

abbrev guest : Vm ℕ
guest = record {
  vm_id = 0;
  ram_virtual_base_address = 0x40000000;
  ram_physical_base_address = 0x80000000;
  ram_size = 0x10000000;
  mmio_handlers = [];
}

abbrev reset : VirtioBlkMmio
reset = record {
  file_size = 0x100000;
  interrupt_status = 0;
  status = 0;
  queue_size = 0;
  queue_ready = false;
  page_size = 4096;
  descriptor = 0;
  avail_ring = 0;
  used_ring = 0;
  last_avail_id = 0;
  used_id = 0;
}

a_page : get_physical_address guest (0x40010 * 4096) ≡ done (some 0x80010000)
unfolding get_physical_address
a_page = refl

queue_order_lem_example :
    (b' : VirtioBlkMmio) × ((set_queue_num 1024 reset >>= set_queue_pfn guest 0x40010) ≡ done b')
    × ((set_queue_pfn guest 0x40010 reset >>= set_queue_num 1024) ≡ done b')
    × (b'.descriptor ≡ 0x80010000)
    × (b'.queue_size ≡ 1024)
    × (b'.avail_ring ≡ 0x80010000 + 16 * 1024)
    × (b'.avail_ring + 2 * (3 + 1024) ≤ b'.used_ring)
    × (b'.used_ring % 4096 ≡ 0)
queue_order_lem_example =
    queue_order_lem guest reset 12 1024 0x40010 0x80010000 refl (omega arith) (omega arith) a_page
      (omega arith) (omega arith) (omega arith)
