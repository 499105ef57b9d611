-- ===== src/Gic/Distributor.antt =====
-- The distributor of src/mmio/gicv3.rs: its state, the accessors and `trigger_interrupt`.
-- `Mmio` has the guest's reads and writes.
pub mod Mmio
pub mod Status
pub mod Trigger
pub mod Safety
pub mod Access
use mini_visor.Base.{
  ℕ, ◌+◌, ◌-◌, ◌*◌, ◌/◌, ◌%◌, ◌^◌, ◌≡◌, bit_and, bit_or, Bool, true, false, not, ◌&&◌, Option, none,
  some, List, [], ◌∷◌, ◌++◌, length, replicate, u32, u64, ◌>>>◌, ◌<<<◌, ltb, ◌==◌, if◌then◌else◌,
  Outcome, done, panic, ◌>>=◌, ◌>>◌, assert, index,
}
use mini_visor.Cpu.{Cpu, set_icc_sgi1r_el1}
use mini_visor.Vgic.{create_list_register_entry, add_virtual_interrupt}
use mini_visor.Gic.Bank.{register_bit, change_bit, priority_byte, field}

pub record GicDistributorMmio : Type 0 where
  pub ctlr : ℕ
  pub group : List ℕ
  pub enable : List ℕ
  pub pending : List ℕ
  pub active : List ℕ
  pub priority : List ℕ
  pub configuration : List ℕ
  pub group_modifier : List ℕ
  pub router : List ℕ
  pub to_inject_interrupt : List ℕ

abbrev pub gicd_ctlr_are_s : ℕ
gicd_ctlr_are_s = 2 ^ 4

abbrev pub gicd_ctlr_enable_grp1ns : ℕ
gicd_ctlr_enable_grp1ns = 2 ^ 1

abbrev pub inject_interrupt_int_id : ℕ
inject_interrupt_int_id = 11

unfoldable pub new : GicDistributorMmio
new = record {
  ctlr = 0;
  group = replicate 32 0;
  enable = replicate 32 0;
  pending = replicate 32 0;
  active = replicate 32 0;
  priority = replicate 255 0;
  configuration = replicate 64 0;
  group_modifier = replicate 32 0;
  router = replicate 1020 0;
  to_inject_interrupt = [];
}

unfoldable pub get_group : ℕ → GicDistributorMmio → Outcome ℕ
unfolding register_bit
get_group int_id d = register_bit d.group int_id

unfoldable pub get_enable : ℕ → GicDistributorMmio → Outcome Bool
unfolding register_bit
get_enable int_id d = do b ← register_bit d.enable int_id; done (not (b == 0))

unfoldable pub get_pending : ℕ → GicDistributorMmio → Outcome Bool
unfolding register_bit
get_pending int_id d = do b ← register_bit d.pending int_id; done (not (b == 0))

unfoldable pub change_pending_status : ℕ → Bool → GicDistributorMmio → Outcome GicDistributorMmio
unfolding change_bit
change_pending_status int_id is_pending d = do
  registers ← change_bit d.pending int_id is_pending
  done (record d { pending = registers })

unfoldable pub change_active_status : ℕ → Bool → GicDistributorMmio → Outcome GicDistributorMmio
unfolding change_bit
change_active_status int_id is_active d = do
  registers ← change_bit d.active int_id is_active
  done (record d { active = registers })

unfoldable pub get_priority : ℕ → GicDistributorMmio → Outcome ℕ
unfolding priority_byte
get_priority int_id d = priority_byte d.priority int_id

unfoldable pub get_group_modifier : ℕ → GicDistributorMmio → Outcome ℕ
unfolding register_bit
get_group_modifier int_id d = register_bit d.group_modifier int_id

unfoldable pub get_router : ℕ → GicDistributorMmio → Outcome ℕ
get_router int_id d = index d.router int_id

-- The affinity in `router` and that in MPIDR_EL1 have the same four fields.
unfoldable pub same_affinity : ℕ → ℕ → Bool
unfolding field
same_affinity router mpidr_el1 =
    field 40 32 router == field 40 32 mpidr_el1
    && field 24 16 router == field 24 16 mpidr_el1
    && field 16 8 router == field 16 8 mpidr_el1
    && field 8 0 router == field 8 0 mpidr_el1

-- The value for ICC_SGI1R_EL1 that interrupts the CPU of an affinity.
unfoldable pub sgi_for : ℕ → ℕ
unfolding field
sgi_for affinity =
    bit_or
      (bit_or
        (bit_or (bit_or (u64 (field 40 32 affinity <<< 48)) (u64 (field 24 16 affinity <<< 32)))
          (inject_interrupt_int_id <<< 24))
        (u64 (field 16 8 affinity <<< 48)))
      (1 <<< field 8 0 affinity)

-- The end of `trigger_interrupt`: to this CPU at once, or into the queue with an interrupt to the
-- CPU that has to take it.
unfoldable pub route : ℕ → ℕ → GicDistributorMmio → Cpu → Outcome (GicDistributorMmio × Cpu)
unfolding same_affinity sgi_for field
route router list_entry d c =
    if same_affinity router c.mpidr_el1
    then (do c' ← add_virtual_interrupt list_entry c; done (d, c'))
    else do
      assert (ltb (field 8 0 router) 16)
      done (
        record d { to_inject_interrupt = d.to_inject_interrupt ++ list_entry ∷ [] },
        set_icc_sgi1r_el1 (sgi_for router) c,
      )

-- The part of `trigger_interrupt` that an enabled interrupt reaches.
unfoldable pub deliver :
    ℕ → Option ℕ → GicDistributorMmio → Cpu → Outcome (GicDistributorMmio × Cpu)
unfolding get_group_modifier get_group get_priority get_router route
deliver int_id physical_int_id d c = do
  modifier ← get_group_modifier int_id d
  if modifier == 1 then done (d, c) else do
    group ← get_group int_id d
    priority ← get_priority int_id d
    router ← get_router int_id d
    if bit_and d.ctlr gicd_ctlr_are_s == 0
        then done (d, c)
        else route router (create_list_register_entry int_id group priority physical_int_id) d c

unfoldable pub trigger_interrupt :
    ℕ → Option ℕ → GicDistributorMmio → Cpu → Outcome (GicDistributorMmio × Cpu)
unfolding change_pending_status get_enable deliver
trigger_interrupt int_id physical_int_id d c =
    if bit_and d.ctlr gicd_ctlr_enable_grp1ns == 0 then done (d, c) else do
      d' ← change_pending_status int_id true d
      enabled ← get_enable int_id d'
      if enabled then deliver int_id physical_int_id d' c else done (d', c)
