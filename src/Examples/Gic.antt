-- ===== src/Examples/Gic.antt =====
-- Examples for src/mmio/gicv3.rs.
use mini_visor.Base.{
  ℕ, ◌<◌, ◌≡◌, refl, ◌⊎◌, inl, inr, true, false, none, [], ◌∷◌, ◌++◌, u32, done, panic, Ends, ◌==◌,
  if◌then◌else◌, arith,
}
use mini_visor.Cpu.{Cpu}
use mini_visor.Vgic.{supported_lrn}
use mini_visor.Vgic.Deliver.{Delivered, IsTaken}
use mini_visor.Vgic.Entry.{HasFields}
use mini_visor.Gic.Bank.{field}
use mini_visor.Gic.Bank.Bits.{bit_at}
use mini_visor.Gic.Distributor.{
  GicDistributorMmio, get_pending, change_pending_status, same_affinity, sgi_for, trigger_interrupt,
}
use mini_visor.Gic.Distributor.Status.{
  IsDistributor, with_pending, get_pending-change_pending_status,
}
use mini_visor.Gic.Distributor.Trigger.{
  IsDeliverable, is_on, priority_of, router_of, trigger_interrupt_local, trigger_interrupt_remote,
  trigger_interrupt_held,
}
use mini_visor.Gic.Distributor.Safety.{IsGuestGic, write-Ends}
use mini_visor.Gic.Distributor.Mmio.{read, write}
use mini_visor.Gic.Distributor.Access.{read-write, group_modifier-panics}
use mini_visor.Examples.Data.{idle_cpu, far_cpu, ready, ready-IsDistributor}

deliverable : IsDeliverable ready 33
deliverable = record { on = refl; routing = refl; enabled = refl; insecure = refl }

near : same_affinity (router_of ready 33) 0x80000000 ≡ true
unfolding same_affinity
near = refl

far : same_affinity (router_of ready 33) 0x80000001 ≡ false
unfolding same_affinity
far = refl

small_aff0 : field 8 0 (router_of ready 33) < 16
unfolding field
small_aff0 = omega arith

trigger_interrupt_local_example :
    (entry : ℕ) × (c' : Cpu) × HasFields entry 33 (bit_at ready.group 33) (priority_of ready 33)
    × (trigger_interrupt 33 none ready idle_cpu ≡ done (with_pending 33 true ready, c'))
    × (((k : ℕ) × Delivered entry idle_cpu k c')
        ⊎ ((c' ≡ idle_cpu) × ((k : ℕ) → k < supported_lrn idle_cpu → IsTaken entry idle_cpu k)))
trigger_interrupt_local_example =
    trigger_interrupt_local 33 ready idle_cpu ready-IsDistributor refl (omega arith) deliverable
      near

trigger_interrupt_remote_example :
    (entry : ℕ) × HasFields entry 33 (bit_at ready.group 33) (priority_of ready 33)
    × (trigger_interrupt 33 none ready far_cpu
        ≡ done (
          record (with_pending 33 true ready) { to_inject_interrupt = [] ++ entry ∷ [] },
          record far_cpu { sent_sgi = [] ++ sgi_for (router_of ready 33) ∷ [] },
        ))
trigger_interrupt_remote_example =
    trigger_interrupt_remote 33 ready far_cpu ready-IsDistributor (omega arith) deliverable far
      small_aff0

trigger_interrupt_held_example :
    trigger_interrupt 40 none ready idle_cpu
    ≡ done (if is_on ready then with_pending 40 true ready else ready, idle_cpu)
trigger_interrupt_held_example =
    trigger_interrupt_held 40 ready idle_cpu ready-IsDistributor (omega arith) (inl (inr refl))

get_pending-change_pending_status_example :
    (d' : GicDistributorMmio) × (change_pending_status 40 true ready ≡ done d')
    × IsDistributor d'
    × (get_pending 41 d' ≡ (if 40 == 41 then done true else get_pending 41 ready))
get_pending-change_pending_status_example =
    get_pending-change_pending_status 40 41 true ready ready-IsDistributor (omega arith)
      (omega arith)

write-Ends_example : Ends IsGuestGic (write ready 0x104 32 6 idle_cpu)
write-Ends_example = write-Ends ready idle_cpu ready-IsDistributor refl 0x104 32 6 (omega arith)

read-write_example :
    (d' : GicDistributorMmio) × (write ready 0xc08 32 0x1_0000_0002 idle_cpu ≡ done (d', idle_cpu))
    × (read d' 0xc08 32 ≡ done (u32 0x1_0000_0002))
read-write_example =
    read-write ready idle_cpu 0xc08 0x1_0000_0002 ready-IsDistributor (inr (inl (omega arith)))

group_modifier-panics_example :
    (read ready 0xd80 32 ≡ panic) × (write ready 0xd80 32 1 idle_cpu ≡ panic)
group_modifier-panics_example =
    group_modifier-panics ready idle_cpu 0xd80 1 ready-IsDistributor (omega arith) (omega arith)
