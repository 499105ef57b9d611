-- ===== src/Vm/Places.antt =====
-- Where `create_vm` of src/vm.rs puts the kernel in the RAM of the guest.
use mini_visor.Base.{
  ℕ, ◌+◌, ◌-◌, ◌*◌, ◌/◌, ◌%◌, ◌^◌, ◌≤◌, ◌<◌, ◌≡◌, refl, done, some, ◌>>=◌, add64, sub64, clear_bits,
  arith,
}
use mini_visor.Allocator.Align.{align_down_lem}
use mini_visor.Vm.{Vm, get_physical_address}
use mini_visor.Vm.Create.{ram_virtual_base, ram_size, align_size, kernel_virtual_address}

-- A guest with the RAM that `create_vm` gives it.
pub record HasRam {S : Type 0} (vm : Vm S) : Type 0 where
  pub is_base : vm.ram_virtual_base_address ≡ ram_virtual_base
  pub is_size : vm.ram_size ≡ ram_size
  pub physical_fits : vm.ram_physical_base_address + ram_size ≤ 2 ^ 64

-- In a guest with the RAM that `create_vm` gives it, of which the device tree leaves at least 2
-- MiB, the kernel starts at a multiple of 2 MiB, at the end of the device tree or less than 2 MiB
-- behind it. The place is in the RAM, as far from its start as the addresses say.
pub kernel_virtual_address_lem :
    {S : Type 0} (vm : Vm S) (dtb_size : ℕ)
    → HasRam vm
    → dtb_size + align_size ≤ ram_size
    → (a : ℕ) × (kernel_virtual_address dtb_size ≡ done a)
      × (a % align_size ≡ 0)
      × (ram_virtual_base + dtb_size ≤ a)
      × (a < ram_virtual_base + dtb_size + align_size)
      × (get_physical_address vm a
          ≡ done (some (vm.ram_physical_base_address + (a - ram_virtual_base))))
unfolding kernel_virtual_address get_physical_address
kernel_virtual_address_lem vm dtb_size has small =
    let last : ℕ = ram_virtual_base + dtb_size - 1 in
    let a : ℕ = last / 2 ^ 21 * 2 ^ 21 + 2 ^ 21 in
    let cleared : clear_bits 64 last (align_size - 1) ≡ last / 2 ^ 21 * 2 ^ 21 =
      align_down_lem last 21 (omega arith) (omega arith) in
    let end : add64 ram_virtual_base dtb_size ≡ done (ram_virtual_base + dtb_size) = ground arith in
    let before : sub64 (ram_virtual_base + dtb_size) 1 ≡ done last = ground arith in
    let sum : add64 (last / 2 ^ 21 * 2 ^ 21) align_size ≡ done a = ground arith in
    let base = has.is_base in
    let size = has.is_size in
    let fits = has.physical_fits in
    let above : ram_virtual_base + dtb_size ≤ a = omega arith in
    let below : a < ram_virtual_base + dtb_size + align_size = omega arith in
    (
      a,
      rw (end, before, cleared, sum, kernel_virtual_address, ◌>>=◌) refl,
      omega arith,
      above,
      below,
      ground arith,
    )
