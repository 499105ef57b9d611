-- ===== src/Vm.antt =====
-- src/vm.rs: a virtual machine, the dispatch of its device accesses, the translation of its RAM
-- addresses, and the list of VMs with the active one. A device is a trait object, so the dispatch
-- is generic in the state `S` that the devices' handlers work on; an error of a handler is `none`.
pub mod Dispatch
pub mod Memory
pub mod Active
pub mod Create
pub mod Places
use mini_visor.Base.{
  ℕ, ◌+◌, ◌-◌, Bool, true, false, ◌&&◌, Option, none, some, List, [], ◌∷◌, ◌++◌, ltb, leb, ◌==◌,
  if◌then◌else◌, Outcome, done, ◌>>=◌, unwrap, add64, sub64,
}

-- `dyn MmioHandler`
pub record MmioHandler (S : Type 0) : Type 0 where
  pub read : ℕ → ℕ → S → Outcome (Option ℕ × S)
  pub write : ℕ → ℕ → ℕ → S → Outcome (Option (Unit {0}) × S)

pub record MmioEntry (S : Type 0) : Type 0 where
  pub base_address : ℕ
  pub length : ℕ
  pub handler : MmioHandler S

pub record Vm (S : Type 0) : Type 0 where
  pub vm_id : ℕ
  pub ram_virtual_base_address : ℕ
  pub ram_physical_base_address : ℕ
  pub ram_size : ℕ
  pub mmio_handlers : List (MmioEntry S)

module _ {S : Type 0} where
  -- `e.base_address <= address && address < (e.base_address + e.length)`, whose sum is checked where
  -- the first comparison holds.
  unfoldable pub covers : MmioEntry S → ℕ → Outcome Bool
  covers e address =
      if leb e.base_address address
      then (do top ← add64 e.base_address e.length; done (ltb address top))
      else done false

  unfoldable pub mmio_read : List (MmioEntry S) → ℕ → ℕ → S → Outcome (Option ℕ × S)
  unfolding covers
  mmio_read [] address access_width s = done (none, s)
  mmio_read (e ∷ entries) address access_width s = do
    is_covered ← covers e address
    if is_covered
        then e.handler.read (address - e.base_address) access_width s
        else mmio_read entries address access_width s

  unfoldable pub mmio_write : List (MmioEntry S) → ℕ → ℕ → ℕ → S → Outcome (Option (Unit {0}) × S)
  unfolding covers
  mmio_write [] address access_width value s = done (none, s)
  mmio_write (e ∷ entries) address access_width value s = do
    is_covered ← covers e address
    if is_covered
        then e.handler.write (address - e.base_address) access_width value s
        else mmio_write entries address access_width value s

  unfoldable pub handle_mmio_read : Vm S → ℕ → ℕ → S → Outcome (Option ℕ × S)
  unfolding mmio_read
  handle_mmio_read vm address access_width s = mmio_read vm.mmio_handlers address access_width s

  unfoldable pub handle_mmio_write : Vm S → ℕ → ℕ → ℕ → S → Outcome (Option (Unit {0}) × S)
  unfolding mmio_write
  handle_mmio_write vm address access_width value s =
      mmio_write vm.mmio_handlers address access_width value s

  -- The sums and the difference are checked.
  unfoldable pub get_physical_address : Vm S → ℕ → Outcome (Option ℕ)
  get_physical_address vm virtual_address = do
    top ← add64 vm.ram_virtual_base_address vm.ram_size
    if leb vm.ram_virtual_base_address virtual_address && ltb virtual_address top
        then (do
          offset ← sub64 virtual_address vm.ram_virtual_base_address
          physical ← add64 offset vm.ram_physical_base_address
          done (some physical))
        else done none

  -- The table of devices that `create_vm` builds, in its order.
  unfoldable pub devices :
      (pl011 virtio_blk distributor redistributor : MmioHandler S) → List (MmioEntry S)
  devices pl011 virtio_blk distributor redistributor =
      record { base_address = 0x9000000; length = 0x1000; handler = pl011 }
      ∷ record { base_address = 0xa000000; length = 0x200; handler = virtio_blk }
      ∷ record { base_address = 0x8000000; length = 0x10000; handler = distributor }
      ∷ record { base_address = 0x80a0000; length = 0x20000; handler = redistributor }
      ∷ []

-- `VM_LIST`, `NEXT_VM_ID` and `ACTIVE_VM`.
pub record Registry (S : Type 0) : Type 0 where
  pub vm_list : List (Vm S)
  pub next_vm_id : ℕ
  pub active_vm : Option (Vm S)

module _ {S : Type 0} where
  -- `VM_LIST.lock().iter().find(|vm| vm.vm_id == vm_id)`
  unfoldable pub find_vm : ℕ → List (Vm S) → Option (Vm S)
  find_vm vm_id [] = none
  find_vm vm_id (vm ∷ vms) = if vm.vm_id == vm_id then some vm else find_vm vm_id vms

  unfoldable pub switch_active_vm : ℕ → Registry S → Registry S × Bool
  unfolding find_vm
  switch_active_vm vm_id g = elim (find_vm vm_id g.vm_list) [
    | some vm ↦ (record g { active_vm = some vm }, true)
    | none ↦ (g, false)
  ]

  unfoldable pub get_active_vm : Registry S → Outcome (Vm S)
  get_active_vm g = unwrap g.active_vm

  -- `vm_id` is TPIDR_EL2 of this CPU.
  unfoldable pub get_current_vm : ℕ → Registry S → Outcome (Vm S)
  unfolding find_vm
  get_current_vm vm_id g = unwrap (find_vm vm_id g.vm_list)

  -- The part of `create_vm` that takes an id, and the part that enters the new VM into the list
  -- and makes it the active one.
  unfoldable pub take_vm_id : Registry S → ℕ × Registry S
  take_vm_id g = (g.next_vm_id, record g { next_vm_id = g.next_vm_id + 1 })

  unfoldable pub register_vm : Vm S → Registry S → Registry S
  unfolding switch_active_vm
  register_vm vm g = (switch_active_vm vm.vm_id (record g { vm_list = g.vm_list ++ vm ∷ [] })).0
