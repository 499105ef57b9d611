-- ===== src/Vm/Memory.antt =====
-- The RAM of the VMs of src/vm.rs: where an address of the guest lies in physical memory.
use mini_visor.Base.{
  ℕ, ◌+◌, ◌-◌, ◌^◌, ◌≤◌, ◌<◌, ◌≡◌, ◌≢◌, ◌⊎◌, none, some, ltb, leb, if◌then◌else◌, done, arith,
}
use mini_visor.Vm.{Vm, get_physical_address}

module _ {S : Type 0} where
  -- The RAM does not wrap around the address space, in the guest's view or in the machine's.
  pub record HasRam (vm : Vm S) : Type 0 where
    pub virtual_fits : vm.ram_virtual_base_address + vm.ram_size < 2 ^ 64
    pub physical_fits : vm.ram_physical_base_address + vm.ram_size < 2 ^ 64

  -- An address inside the RAM is translated by the distance between the two bases; an address
  -- outside has no translation. The code does not panic.
  pub get_physical_address_lem :
      (vm : Vm S) (a : ℕ)
      → HasRam vm
      → get_physical_address vm a
        ≡ done (
            if leb vm.ram_virtual_base_address a
            then (if ltb a (vm.ram_virtual_base_address + vm.ram_size)
                then some (a + vm.ram_physical_base_address - vm.ram_virtual_base_address)
                else none)
            else none)
  unfolding get_physical_address
  get_physical_address_lem vm a h = ground arith

  translated-InRam :
      (vm : Vm S) (a p : ℕ)
      → HasRam vm
      → get_physical_address vm a ≡ done (some p)
      → (vm.ram_physical_base_address ≤ p) × (p < vm.ram_physical_base_address + vm.ram_size)
  translated-InRam vm a p h e = ground (arith, get_physical_address_lem vm a h)

  -- Two VMs whose RAM lies apart in physical memory never translate to the same physical address.
  pub get_physical_address-apart :
      (vm vm' : Vm S) (a a' p p' : ℕ)
      → HasRam vm
      → HasRam vm'
      → (vm.ram_physical_base_address + vm.ram_size ≤ vm'.ram_physical_base_address)
        ⊎ (vm'.ram_physical_base_address + vm'.ram_size ≤ vm.ram_physical_base_address)
      → get_physical_address vm a ≡ done (some p)
      → get_physical_address vm' a' ≡ done (some p')
      → p ≢ p'
  get_physical_address-apart vm vm' a a' p p' h h' apart e e' same =
      omega (arith, translated-InRam vm a p h e, translated-InRam vm' a' p' h' e')
