-- ===== src/Gic/Redistributor.antt =====
-- The redistributor of src/mmio/gicv3.rs: its state, the accessors and `trigger_interrupt`. A
-- shift by 32 or more panics. `Mmio` has the guest's reads and writes.
pub mod Mmio
use mini_visor.Base.{
  ℕ, ◌+◌, ◌*◌, ◌/◌, ◌%◌, ◌^◌, bit_and, bit_or, Bool, true, false, not, Option, List, [], ◌∷◌, ◌++◌,
  replicate, clear_bits, u64, ◌>>>◌, ◌<<<◌, ltb, ◌==◌, if◌then◌else◌, Outcome, done, ◌>>=◌, ◌>>◌,
  assert,
}
use mini_visor.Cpu.{Cpu, mpidr_to_affinity, set_icc_sgi1r_el1}
use mini_visor.Vgic.{create_list_register_entry, add_virtual_interrupt}
use mini_visor.Gic.Bank.{changed_word, priority_byte, field}
use mini_visor.Gic.Distributor.{sgi_for}

pub record GicRedistributorMmio : Type 0 where
  pub affinity : ℕ
  pub ctlr : ℕ
  pub waker : ℕ
  pub group : ℕ
  pub enable : ℕ
  pub pending : ℕ
  pub active : ℕ
  pub priority : List ℕ
  pub configuration : List ℕ
  pub group_modifier : ℕ
  pub to_inject_interrupt : List ℕ

abbrev pub gicr_waker_children_asleep : ℕ
gicr_waker_children_asleep = 2 ^ 2

abbrev pub gicr_waker_processor_sleep : ℕ
gicr_waker_processor_sleep = 2 ^ 1

abbrev pub gicr_typer_last : ℕ
gicr_typer_last = 2 ^ 4

unfoldable pub new : ℕ → GicRedistributorMmio
unfolding mpidr_to_affinity
new mpidr_el1 = record {
  affinity = mpidr_to_affinity mpidr_el1;
  ctlr = 0;
  waker = gicr_waker_children_asleep;
  group = 0;
  enable = 0;
  pending = 0;
  active = 0;
  priority = replicate 8 0;
  configuration = replicate 2 0;
  group_modifier = 0;
  to_inject_interrupt = [];
}

unfoldable pub generate_typer : GicRedistributorMmio → ℕ
unfolding field
generate_typer r =
    bit_or
      (bit_or
        (bit_or (bit_or gicr_typer_last (u64 (field 8 0 r.affinity <<< 32)))
          (u64 (field 16 8 r.affinity <<< 40)))
        (u64 (field 24 16 r.affinity <<< 48)))
      (u64 (field 40 32 r.affinity <<< 56))

-- `(word >> int_id) & 1`
unfoldable pub word_bit : ℕ → ℕ → Outcome ℕ
word_bit word int_id = do assert (ltb int_id 32); done (bit_and (word >>> int_id) 1)

unfoldable pub get_group : ℕ → GicRedistributorMmio → Outcome ℕ
unfolding word_bit
get_group int_id r = word_bit r.group int_id

unfoldable pub get_enable : ℕ → GicRedistributorMmio → Outcome Bool
unfolding word_bit
get_enable int_id r = do b ← word_bit r.enable int_id; done (not (b == 0))

unfoldable pub get_pending : ℕ → GicRedistributorMmio → Outcome Bool
unfolding word_bit
get_pending int_id r = do b ← word_bit r.pending int_id; done (not (b == 0))

unfoldable pub change_pending_status :
    ℕ → Bool → GicRedistributorMmio → Outcome GicRedistributorMmio
unfolding changed_word
change_pending_status int_id is_pending r = do
  assert (ltb int_id 32)
  done (record r { pending = changed_word r.pending int_id is_pending })

unfoldable pub change_active_status : ℕ → Bool → GicRedistributorMmio → Outcome GicRedistributorMmio
unfolding changed_word
change_active_status int_id is_active r = do
  assert (ltb int_id 32)
  done (record r { active = changed_word r.active int_id is_active })

unfoldable pub get_priority : ℕ → GicRedistributorMmio → Outcome ℕ
unfolding priority_byte
get_priority int_id r = priority_byte r.priority int_id

unfoldable pub get_group_modifier : ℕ → GicRedistributorMmio → Outcome ℕ
unfolding word_bit
get_group_modifier int_id r = word_bit r.group_modifier int_id

-- The end of `trigger_interrupt`: to this CPU at once, or into the queue with an interrupt to the
-- CPU that has to take it.
unfoldable pub route : ℕ → GicRedistributorMmio → Cpu → Outcome (GicRedistributorMmio × Cpu)
unfolding mpidr_to_affinity sgi_for field
route list_entry r c =
    if r.affinity == mpidr_to_affinity c.mpidr_el1
    then (do c' ← add_virtual_interrupt list_entry c; done (r, c'))
    else do
      assert (ltb (field 8 0 r.affinity) 16)
      done (
        record r { to_inject_interrupt = r.to_inject_interrupt ++ list_entry ∷ [] },
        set_icc_sgi1r_el1 (sgi_for r.affinity) c,
      )

-- The part of `trigger_interrupt` that an enabled interrupt reaches.
unfoldable pub deliver :
    ℕ → Option ℕ → GicRedistributorMmio → Cpu → Outcome (GicRedistributorMmio × Cpu)
unfolding get_group_modifier get_group get_priority route
deliver int_id physical_int_id r c = do
  modifier ← get_group_modifier int_id r
  if modifier == 1 then done (r, c) else do
    group ← get_group int_id r
    priority ← get_priority int_id r
    route (create_list_register_entry int_id group priority physical_int_id) r c

unfoldable pub trigger_interrupt :
    ℕ → Option ℕ → GicRedistributorMmio → Cpu → Outcome (GicRedistributorMmio × Cpu)
unfolding change_pending_status get_enable deliver
trigger_interrupt int_id physical_int_id r c =
    if not (bit_and r.waker gicr_waker_children_asleep == 0) then done (r, c) else do
      r' ← change_pending_status int_id true r
      enabled ← get_enable int_id r'
      if enabled then deliver int_id physical_int_id r' c else done (r', c)
