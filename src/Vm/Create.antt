-- ===== src/Vm/Create.antt =====
-- `create_vm` of src/vm.rs: a new VM with its RAM, its devices, and the files that it starts from. The
-- registers of the hypervisor, the physical GIC and the timer are not modelled. The words of the
-- translation tables and the bytes of the files are memories of their own, since the allocator
-- gives out each place once.
use mini_visor.Base.{
  ℕ, ◌+◌, ◌-◌, ◌/◌, ◌^◌, Bool, true, Outcome, done, panic, ◌>>=◌, ◌>>◌, assert, unwrap, add64,
  sub64, u8, clear_bits, List, [], ◌∷◌, Memory, read_bytes, ◌==◌, ltb, if◌then◌else◌,
}
use mini_visor.Vm.{
  Vm, MmioHandler, Registry, get_physical_address, devices, take_vm_id, register_vm,
}
use mini_visor.Paging.{allocate_pages}
use mini_visor.Paging.Tables.{Stage2, init_stage2_translation_table, map_address_stage2}
use mini_visor.VirtioBlk as VirtioBlk
use mini_visor.VirtioBlk.Operation.{Disk}
use mini_visor.Fat32.{Fat32, FileInfo, Io, get_file_size}
use mini_visor.Fat32.Read.{read}
use mini_visor.Fat32.Names.{search_file}

abbrev pub ram_virtual_base : ℕ
ram_virtual_base = 0x40000000

abbrev pub ram_size : ℕ
ram_size = 0x10000000

abbrev pub align_size : ℕ
align_size = 0x200000

abbrev pub image_name : List ℕ
image_name = b'I' ∷ b'M' ∷ b'A' ∷ b'G' ∷ b'E' ∷ []

abbrev pub dtb_name : List ℕ
dtb_name = b'D' ∷ b'T' ∷ b'B' ∷ []

-- `DISK` and a digit; the sum is one of `u8`.
unfoldable pub disk_name : ℕ → Outcome (List ℕ)
disk_name vm_id =
    if ltb (b'0' + u8 vm_id) (2 ^ 8)
    then done (b'D' ∷ b'I' ∷ b'S' ∷ b'K' ∷ (b'0' + u8 vm_id) ∷ [])
    else panic

-- The first multiple of `align_size` behind the device tree, or the next where that is its end.
unfoldable pub kernel_virtual_address : ℕ → Outcome ℕ
kernel_virtual_address dtb_size = do
  end ← add64 ram_virtual_base dtb_size
  last ← sub64 end 1
  add64 (clear_bits 64 last (align_size - 1)) align_size

-- The header of the kernel, and where it is entered.
unfoldable pub entry_point : Memory → ℕ → ℕ → Outcome ℕ
unfolding read_bytes
entry_point memory kernel_physical kernel_virtual = do
  assert (read_bytes 4 memory (kernel_physical + 56) == 0x644D5241)
  let text_offset : ℕ =
      (if read_bytes 8 memory (kernel_physical + 16) == 0
        then 0x80000
        else read_bytes 8 memory (kernel_physical + 8))
  add64 kernel_virtual text_offset

module _ {D : Type 0} (blk : Disk D) (fuel_of_free : ℕ) (is_utf8 : List ℕ → Bool)
    (fat32 : Fat32) where
  -- A whole file; the number of bytes that were read is not looked at.
  unfoldable pub load_file : FileInfo → ℕ → Io D → Outcome (Io D)
  unfolding get_file_size
  load_file file address s = do
    (result, s') ← read blk fuel_of_free fat32 file address 0 (get_file_size file) s
    length ← unwrap result
    done s'

  -- The device tree and the kernel.
  unfoldable pub load_guest : {S : Type 0} → Vm S → Io D → Outcome (ℕ × Io D)
  unfolding kernel_virtual_address get_physical_address load_file entry_point
  load_guest vm s = do
    kernel_found ← search_file is_utf8 fat32 s.memory image_name
    kernel ← unwrap kernel_found
    dtb_found ← search_file is_utf8 fat32 s.memory dtb_name
    dtb ← unwrap dtb_found
    kernel_virtual ← kernel_virtual_address (get_file_size dtb)
    translated ← get_physical_address vm kernel_virtual
    kernel_physical ← unwrap translated
    with_dtb ← load_file dtb vm.ram_physical_base_address s
    with_kernel ← load_file kernel kernel_physical with_dtb
    entry ← entry_point with_kernel.memory kernel_physical kernel_virtual
    done (entry, with_kernel)

  module _ {S : Type 0} (pl011 distributor redistributor : MmioHandler S)
      (virtio_blk : FileInfo → MmioHandler S) where
    -- The allocator is that of the tables until they stand, and then that of the files.
    unfoldable pub create_vm :
        Stage2 → Memory → D → Registry S → Outcome ((ℕ × ℕ) × Stage2 × Io D × Registry S)
    unfolding disk_name take_vm_id load_guest register_vm
    create_vm t memory disk g = do
      allocated ← allocate_pages (ram_size / 2 ^ 12) 12 t.allocator
      (ram_physical_address, allocator) ← unwrap allocated
      let taken : ℕ × Registry S = take_vm_id g
      empty ← init_stage2_translation_table (record t { allocator = allocator })
      mapped ← map_address_stage2 ram_physical_address ram_virtual_base ram_size true true empty
      t' ← unwrap mapped
      file_name ← disk_name taken.0
      assert (is_utf8 file_name)
      disk_found ← search_file is_utf8 fat32 memory file_name
      disk_file ← unwrap disk_found
      device ← VirtioBlk.new (get_file_size disk_file)
      let vm : Vm S = record {
        vm_id = taken.0;
        ram_virtual_base_address = ram_virtual_base;
        ram_physical_base_address = ram_physical_address;
        ram_size = ram_size;
        mmio_handlers = devices pl011 (virtio_blk disk_file) distributor redistributor;
      }
      (entry, s) ← load_guest vm (record { memory = memory; allocator = t'.allocator; disk = disk })
      done (
        (entry, ram_virtual_base),
        record t' { allocator = s.allocator },
        s,
        register_vm vm taken.1,
      )
