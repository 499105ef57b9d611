-- ===== src/Gic/Handlers.antt =====
-- The two interrupt handlers that work on the interrupt controller of the current VM:
-- `inject_interrupt_handler` of src/mmio/gicv3.rs and `maintenance_interrupt_handler` of
-- src/vgic.rs. The current VM is the one that runs on this CPU, an argument here.
pub mod Inject
use mini_visor.Base.{
  ℕ, zero, suc, ◌+◌, ◌-◌, ◌/◌, ◌^◌, bit_and, Bool, true, false, List, [], ◌∷◌, leb, ◌==◌, ◌>>>◌,
  if◌then◌else◌, Outcome, done, ◌>>=◌, index,
}
use mini_visor.Cpu.{Cpu}
use mini_visor.Vgic.{supported_lrn, set_ich_lrn_el2, add_virtual_interrupt}
use mini_visor.Gic.Distributor
use mini_visor.Gic.Distributor.{GicDistributorMmio}
use mini_visor.Gic.Redistributor
use mini_visor.Gic.Redistributor.{GicRedistributorMmio}

-- What the handlers reach: the current VM's distributor and redistributor, and this CPU.
pub record GuestGic : Type 0 where
  pub distributor : GicDistributorMmio
  pub redistributor : GicRedistributorMmio
  pub cpu : Cpu

-- `while let Some(entry) = queue.pop_front()`
unfoldable pub inject_all : List ℕ → Cpu → Outcome Cpu
inject_all [] c = done c
inject_all (entry ∷ queue) c = do c' ← add_virtual_interrupt entry c; inject_all queue c'

unfoldable pub inject_interrupt_handler : GuestGic → Outcome GuestGic
unfolding inject_all
inject_interrupt_handler g = do
  c ← inject_all g.distributor.to_inject_interrupt g.cpu
  c' ← inject_all g.redistributor.to_inject_interrupt c
  done (record g {
    distributor = record g.distributor { to_inject_interrupt = [] };
    redistributor = record g.redistributor { to_inject_interrupt = [] };
    cpu = c';
  })

-- The interrupt `int_id` is over: it is neither pending nor active any more.
unfoldable pub retire : ℕ → GuestGic → Outcome GuestGic
retire int_id g =
    if leb 32 int_id
    then (do
      d ← Distributor.change_pending_status int_id false g.distributor
      d' ← Distributor.change_active_status int_id false d
      done (record g { distributor = d' }))
    else do
      r ← Redistributor.change_pending_status int_id false g.redistributor
      r' ← Redistributor.change_active_status int_id false r
      done (record g { redistributor = r' })

-- The body of the loop for a list register whose bit of ICH_EISR_EL2 is set.
unfoldable pub end_interrupt : ℕ → GuestGic → Outcome GuestGic
unfolding retire
end_interrupt i g = do
  entry ← index g.cpu.ich_lr i
  g' ← retire (bit_and entry (2 ^ 32 - 1)) g
  c ← set_ich_lrn_el2 i 0 g'.cpu
  done (record g' { cpu = c })

-- The loop at list register `i` with `left` registers to go.
unfoldable pub maintain : ℕ → ℕ → ℕ → GuestGic → Outcome GuestGic
unfolding end_interrupt
maintain zero i eoi_bits g = done g
maintain (suc left) i eoi_bits g = do
  g' ← (if bit_and eoi_bits 1 == 0 then done g else end_interrupt i g)
  maintain left (i + 1) (eoi_bits >>> 1) g'

unfoldable pub maintenance_interrupt_handler : GuestGic → Outcome GuestGic
unfolding maintain
maintenance_interrupt_handler g = maintain (supported_lrn g.cpu) 0 g.cpu.ich_eisr_el2 g
