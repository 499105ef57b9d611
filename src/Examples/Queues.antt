-- ===== src/Examples/Queues.antt =====
-- Examples for the interrupt handlers of src/mmio/gicv3.rs.
use mini_visor.Base.{◌+◌, ◌^◌, ◌≡◌, refl, [], ◌∷◌, done, arith}
use mini_visor.Cpu.{Cpu}
use mini_visor.Gic.Redistributor.{new}
use mini_visor.Gic.Handlers.{GuestGic, inject_interrupt_handler}
use mini_visor.Gic.Handlers.Inject.{Keeps, AllPlaced, inject_interrupt_handler_lem}
use mini_visor.Examples.Data.{idle_cpu, ready}

abbrev waiting : GuestGic
waiting = record {
  distributor = record ready { to_inject_interrupt = (2 ^ 62 + 33) ∷ (2 ^ 62 + 40) ∷ [] };
  redistributor = record (new 0x80000000) { to_inject_interrupt = (2 ^ 62 + 27) ∷ [] };
  cpu = idle_cpu;
}

inject_interrupt_handler_lem_example :
    (c' : Cpu) × (inject_interrupt_handler waiting
      ≡ done (record {
        distributor = record waiting.distributor { to_inject_interrupt = [] };
        redistributor = record waiting.redistributor { to_inject_interrupt = [] };
        cpu = c';
      }))
    × Keeps idle_cpu c'
    × AllPlaced ((2 ^ 62 + 33) ∷ (2 ^ 62 + 40) ∷ []) c'
    × AllPlaced ((2 ^ 62 + 27) ∷ []) c'
inject_interrupt_handler_lem_example =
    inject_interrupt_handler_lem waiting refl (omega arith, (omega arith, tt)) (omega arith, tt)
