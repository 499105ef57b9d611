-- ===== src/Examples/Guest.antt =====
-- Examples for src/vm.rs and src/exception.rs.
use mini_visor.Base.{
  ℕ, ◌+◌, ◌≡◌, ◌≢◌, refl, ◌⊎◌, inl, true, false, none, some, [], ◌∷◌, set, replicate, ◌==◌,
  if◌then◌else◌, done, arith,
}
use mini_visor.Vm.{
  MmioHandler, Vm, Registry, handle_mmio_read, handle_mmio_write, get_physical_address, find_vm,
  get_active_vm, get_current_vm, take_vm_id, register_vm, switch_active_vm,
}
use mini_visor.Vm.Dispatch.{first, handle_mmio-reaches}
use mini_visor.Vm.Memory.{get_physical_address-apart}
use mini_visor.Vm.Active.{IsRegistry, register_vm_lem, switch_active_vm_lem}
use mini_visor.Exception.{Trap, synchronous_handler}
use mini_visor.Exception.DataAbort.{synchronous_handler_load, synchronous_handler_store}

-- A device that answers a read with its state and stores what is written, in a state of one number.
abbrev cell : MmioHandler ℕ
cell = record {
  read = λ offset width s. done (some (s + offset), s);
  write = λ offset width value s. done (some tt, value);
}

abbrev guest : Vm ℕ
guest = record {
  vm_id = 0;
  ram_virtual_base_address = 0x40000000;
  ram_physical_base_address = 0x60000000;
  ram_size = 0x10000000;
  mmio_handlers = record { base_address = 0x9000000; length = 0x1000; handler = cell } ∷ [];
}

abbrev other : Vm ℕ
other = record guest { vm_id = 1; ram_physical_base_address = 0x70000000 }

handle_mmio-reaches_example :
    (handle_mmio_read guest 0x9000018 32 7 ≡ done (some 31, 7))
    × (handle_mmio_write guest 0x9000018 32 5 7 ≡ done (some tt, 5))
handle_mmio-reaches_example =
    handle_mmio-reaches guest _ 0x9000018 32 5 7 (omega arith) (omega arith) first (omega arith)

translated : get_physical_address guest 0x40000010 ≡ done (some 0x60000010)
unfolding get_physical_address
translated = refl

other_translated : get_physical_address other 0x40000010 ≡ done (some 0x70000010)
unfolding get_physical_address
other_translated = refl

get_physical_address-apart_example : ◌≢◌ {A = ℕ} 0x60000010 0x70000010
get_physical_address-apart_example =
    get_physical_address-apart guest other 0x40000010 0x40000010 0x60000010 0x70000010 (omega arith)
      (omega arith) (inl (omega arith)) translated other_translated

abbrev empty : Registry ℕ
empty = record { vm_list = []; next_vm_id = 0; active_vm = none }

empty-IsRegistry : IsRegistry empty
empty-IsRegistry = record { handed_out = tt; active_listed = λ vm e. cc }

given : guest.vm_id ≡ (take_vm_id empty).0
unfolding take_vm_id
given = refl

register_vm_lem_example :
    let g' = register_vm guest (take_vm_id empty).1 in
    IsRegistry g'
    × (get_active_vm g' ≡ done guest)
    × (get_current_vm 0 g' ≡ (if 0 == 0 then done guest else get_current_vm 0 empty))
register_vm_lem_example = register_vm_lem empty guest 0 empty-IsRegistry given

switch_active_vm_lem_example :
    IsRegistry (switch_active_vm 3 empty).0
    × (((vm : Vm ℕ) × (get_current_vm 3 empty ≡ done vm)
          × (get_active_vm (switch_active_vm 3 empty).0 ≡ done vm)
          × ((switch_active_vm 3 empty).1 ≡ true))
        ⊎ ((find_vm 3 empty.vm_list ≡ none) × (switch_active_vm 3 empty ≡ (empty, false))))
switch_active_vm_lem_example = switch_active_vm_lem 3 empty empty-IsRegistry

-- A 32-bit load of x5 from 0x9000018, and a 32-bit store of it.
abbrev load : Trap
load = record {
  registers = replicate 32 0;
  esr_el2 = 0x93850000;
  hpfar_el2 = 0x90000;
  far_el2 = 0xffff000009000018;
  elr_el2 = 0x40080000;
}

abbrev store : Trap
store = record load { esr_el2 = 0x93850040; registers = set (replicate 32 0) 5 0x1_0000_0009 }

load_answer : handle_mmio_read guest 0x9000018 32 7 ≡ done (some 31, 7)
load_answer = handle_mmio-reaches_example.0

synchronous_handler_load_example :
    synchronous_handler guest load 7
    ≡ done (record load { registers = set (replicate 32 0) 5 31; elr_el2 = 0x40080004 }, 7)
synchronous_handler_load_example =
    synchronous_handler_load guest load 7 7
      (record { saved = refl; class = refl; described = refl; next_fits = omega arith }) 31 refl
      (unfold handle_mmio_read in refl)

synchronous_handler_store_example :
    synchronous_handler guest store 7 ≡ done (record store { elr_el2 = 0x40080004 }, 9)
synchronous_handler_store_example =
    synchronous_handler_store guest store 7 9
      (record { saved = refl; class = refl; described = refl; next_fits = omega arith }) refl
      (unfold handle_mmio_write in refl)
