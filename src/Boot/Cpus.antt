-- ===== src/Boot/Cpus.antt =====
-- `launch_cpu` of src/main.rs. The firmware call and the address of `core_entry` are parameters.
use mini_visor.Base.{
  ℕ, ◌^◌, if◌then◌else◌, zero, suc, ◌-◌, ◌/◌, Bool, true, false, Option, none, some, Outcome, done,
  out_of_fuel, ◌>>=◌, unwrap, add64, List, [], ◌∷◌, ◌==◌,
}
use mini_visor.Dtb.{Dtb, DtbNode}
use mini_visor.Dtb.Search.{search_node}
use mini_visor.Dtb.Property.{read_reg_property}
use mini_visor.Psci.{ok, err, cpu_on}
use mini_visor.Allocator.{MemoryAllocator}
use mini_visor.Paging.{allocate_pages}
use mini_visor.Fat32.Read.{free_pages}
use mini_visor.Boot.{answer}
use mini_visor.Boot.Ram.{stack_size}

-- `cpu`
abbrev pub cpu_name : List ℕ
cpu_name = b'c' ∷ b'p' ∷ b'u' ∷ []

module _ (memory : ℕ → ℕ) (smc : ℕ → ℕ → ℕ → ℕ → ℕ) (core_entry : ℕ) where
  -- The attempt at one node; every error goes on to the next.
  unfoldable pub start_cpu : ℕ → Option (ℕ × ℕ) → ℕ → Bool
  start_cpu current_affinity none stack_address = false
  start_cpu current_affinity (some (affinity, size)) stack_address =
      if current_affinity == affinity
      then false
      else elim (cpu_on smc affinity core_entry stack_address) [ ok u ↦ true | err e ↦ false ]

  -- The loop over the nodes behind `cpu_node`.
  unfoldable pub launch_from : ℕ → Dtb → ℕ → ℕ → Option DtbNode → Outcome Bool
  unfolding start_cpu
  launch_from zero dtb current_affinity stack_address cpu_node = out_of_fuel
  launch_from (suc fuel) dtb current_affinity stack_address cpu_node = do
    found ← answer (search_node memory fuel dtb cpu_name cpu_node)
    elim found [
      | none ↦ done false
      | some cpu ↦ (do
        reg ← answer (read_reg_property memory fuel dtb cpu 0)
        elim (start_cpu current_affinity reg stack_address) [
          | true ↦ done true
          | false ↦ launch_from fuel dtb current_affinity stack_address (some cpu)
        ])
    ]

  -- The stack of the new CPU is given back if none starts.
  unfoldable pub launch_cpu : ℕ → Dtb → ℕ → MemoryAllocator → Outcome (Bool × MemoryAllocator)
  unfolding launch_from
  launch_cpu fuel dtb current_affinity s = do
    allocated ← allocate_pages (stack_size / 2 ^ 12) 0 s
    (stack, s') ← unwrap allocated
    stack_address ← add64 stack stack_size
    is_launched ← launch_from fuel dtb current_affinity stack_address none
    elim is_launched [
      | true ↦ done (true, s')
      | false ↦ (do
        freed ← free_pages fuel (stack_address - stack_size) (stack_size / 2 ^ 12) s'
        done (false, freed))
    ]
