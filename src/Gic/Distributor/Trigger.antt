-- ===== src/Gic/Distributor/Trigger.antt =====
-- What `trigger_interrupt` of the distributor in src/mmio/gicv3.rs does on each of its paths.
use mini_visor.Base.{
  ℕ, ◌*◌, ◌/◌, ◌%◌, ◌^◌, ◌<◌, ◌≡◌, ◌∙◌, ◌⊎◌, inl, inr, bit_and, Bool, true, false, not, Option,
  none, [], ◌∷◌, ◌++◌, get_or, bit, ◌==◌, Bool-cases, if◌then◌else◌, done, arith,
  get_elem?-eq-get_or, lt→ltb,
}
use mini_visor.Base.Bits.{bit_and_mask}
use mini_visor.Cpu.{Cpu, IsCpu, set_icc_sgi1r_el1}
use mini_visor.Vgic.{create_list_register_entry, supported_lrn}
use mini_visor.Vgic.Entry.{HasFields, create_list_register_entry_lem}
use mini_visor.Vgic.Deliver.{Delivered, IsTaken, add_virtual_interrupt_lem}
use mini_visor.Gic.Bank.{priority_byte, field}
use mini_visor.Gic.Bank.Bits.{bit_at, register_bit_lem}
use mini_visor.Gic.Distributor.{
  GicDistributorMmio, gicd_ctlr_are_s, gicd_ctlr_enable_grp1ns, get_group, get_group_modifier,
  get_priority, get_router, same_affinity, sgi_for, route, deliver, trigger_interrupt,
}
use mini_visor.Gic.Distributor.Status.{
  IsDistributor, status, with_pending, change_pending_status_lem, with_pending-IsDistributor,
  get_enable_lem,
}

abbrev pub is_on : GicDistributorMmio → Bool
is_on d = not (bit_and d.ctlr gicd_ctlr_enable_grp1ns == 0)

abbrev pub has_affinity_routing : GicDistributorMmio → Bool
has_affinity_routing d = not (bit_and d.ctlr gicd_ctlr_are_s == 0)

abbrev pub is_secure : GicDistributorMmio → ℕ → Bool
is_secure d i = bit_at d.group_modifier i == 1

-- The priority and the route of an interrupt, as its registers hold them.
abbrev pub priority_of : GicDistributorMmio → ℕ → ℕ
priority_of d i = bit_and (get_or d.priority (i / 4) 0 / 2 ^ (i % 4 * 8)) 0xff

abbrev pub router_of : GicDistributorMmio → ℕ → ℕ
router_of d i = get_or d.router i 0

abbrev pub entry_of : GicDistributorMmio → ℕ → Option ℕ → ℕ
entry_of d i physical = create_list_register_entry i (bit_at d.group i) (priority_of d i) physical

deliver_lem :
    (i : ℕ) (physical : Option ℕ) (d : GicDistributorMmio) (c : Cpu)
    → IsDistributor d
    → i < 1020
    → deliver i physical d c ≡ (
        if is_secure d i
        then done (d, c)
        else if has_affinity_routing d
        then route (router_of d i) (entry_of d i physical) d c
        else done (d, c))
unfolding deliver get_group_modifier get_group get_priority get_router priority_byte
deliver_lem i physical d c is h =
    rw
      (
        register_bit_lem d.group_modifier i (omega (arith, is.group_modifier)),
        register_bit_lem d.group i (omega (arith, is.group)),
        get_elem?-eq-get_or d.priority (i / 4) 0 (omega (arith, is.priority)),
        get_elem?-eq-get_or d.router i 0 (omega (arith, is.router)),
      )
      (ground arith)

-- A triggered interrupt first becomes pending; the rest depends on whether it is enabled.
trigger_interrupt_lem :
    (i : ℕ) (physical : Option ℕ) (d : GicDistributorMmio) (c : Cpu)
    → IsDistributor d
    → i < 1024
    → is_on d ≡ true
    → trigger_interrupt i physical d c ≡ (
        if status d.enable i
        then deliver i physical (with_pending i true d) c
        else done (with_pending i true d, c))
unfolding trigger_interrupt
trigger_interrupt_lem i physical d c is h on =
    rw
      (
        change_pending_status_lem i true d is h,
        get_enable_lem i (with_pending i true d) (with_pending-IsDistributor i true d is) h,
      )
      (ground arith)

entry_of-HasFields :
    (i : ℕ) (d : GicDistributorMmio)
    → i < 1020
    → HasFields (entry_of d i none) i (bit_at d.group i) (priority_of d i)
entry_of-HasFields i d h =
    (create_list_register_entry_lem i (bit_at d.group i) (priority_of d i) 0 (omega arith)
      (omega arith) (omega (arith, bit_and_mask 8 (get_or d.priority (i / 4) 0 / 2 ^ (i % 4 * 8))))
      (omega arith)).0

pending_bit : (e i g p : ℕ) → HasFields e i g p → bit e 62 ≡ 1
pending_bit e i g p f = omega arith

-- The interrupt is enabled, belongs to the non-secure group, and the distributor is on and routes
-- by affinity.
pub record IsDeliverable (d : GicDistributorMmio) (i : ℕ) : Type 0 where
  pub on : is_on d ≡ true
  pub routing : has_affinity_routing d ≡ true
  pub enabled : status d.enable i ≡ true
  pub insecure : is_secure d i ≡ false

trigger-route :
    (i : ℕ) (d : GicDistributorMmio) (c : Cpu)
    → IsDistributor d
    → i < 1020
    → IsDeliverable d i
    → trigger_interrupt i none d c
      ≡ route (router_of d i) (entry_of d i none) (with_pending i true d) c
trigger-route i d c is h able =
    trigger_interrupt_lem i none d c is (omega arith) able.on
    ∙ rw (able.enabled) (
        deliver_lem i none (with_pending i true d) c (with_pending-IsDistributor i true d is) h
        ∙ rw (able.insecure, able.routing))

-- Triggering a deliverable interrupt below 1020 whose route names this CPU succeeds: the interrupt
-- becomes pending in the distributor, where nothing else changes. A list register that was free
-- then holds an entry with its number, group and priority, or one that held the same interrupt
-- keeps what it held and is pending as well, and no other register changes; or all supported
-- registers are in use by other interrupts, and the CPU does not change.
pub trigger_interrupt_local :
    (i : ℕ) (d : GicDistributorMmio) (c : Cpu)
    → IsDistributor d
    → IsCpu c
    → i < 1020
    → IsDeliverable d i
    → same_affinity (router_of d i) c.mpidr_el1 ≡ true
    → (entry : ℕ) × (c' : Cpu) × HasFields entry i (bit_at d.group i) (priority_of d i)
      × (trigger_interrupt i none d c ≡ done (with_pending i true d, c'))
      × (((k : ℕ) × Delivered entry c k c')
          ⊎ ((c' ≡ c) × ((k : ℕ) → k < supported_lrn c → IsTaken entry c k)))
unfolding route
trigger_interrupt_local i d c is cpu h able here =
    let fields = entry_of-HasFields i d h in
    let (c', added, how) =
      add_virtual_interrupt_lem (entry_of d i none) c cpu (pending_bit _ _ _ _ fields) in
    (entry_of d i none, c', fields, trigger-route i d c is h able ∙ rw (here, added), how)

-- Triggering a deliverable interrupt below 1020 whose route names another CPU, with Aff0 below
-- 16, makes it pending, appends its entry to the queue and sends one software interrupt; the
-- list registers of this CPU do not change.
pub trigger_interrupt_remote :
    (i : ℕ) (d : GicDistributorMmio) (c : Cpu)
    → IsDistributor d
    → i < 1020
    → IsDeliverable d i
    → same_affinity (router_of d i) c.mpidr_el1 ≡ false
    → field 8 0 (router_of d i) < 16
    → (entry : ℕ) × HasFields entry i (bit_at d.group i) (priority_of d i)
      × (trigger_interrupt i none d c
          ≡ done (
            record (with_pending i true d) {
              to_inject_interrupt = d.to_inject_interrupt ++ entry ∷ [];
            },
            record c { sent_sgi = c.sent_sgi ++ sgi_for (router_of d i) ∷ [] },
          ))
unfolding route set_icc_sgi1r_el1
trigger_interrupt_remote i d c is h able away small = (
  entry_of d i none,
  entry_of-HasFields i d h,
  trigger-route i d c is h able ∙ rw (away, lt→ltb (field 8 0 (router_of d i)) 16 small),
)

-- Triggering an interrupt below 1020 while the distributor is off, while the interrupt is disabled
-- or secure, or while affinity routing is off, succeeds and leaves the CPU and the queue alone:
-- nothing at all changes if the distributor is off, and otherwise the interrupt only becomes
-- pending.
pub trigger_interrupt_held :
    (i : ℕ) (d : GicDistributorMmio) (c : Cpu)
    → IsDistributor d
    → i < 1020
    → ((is_on d ≡ false) ⊎ (status d.enable i ≡ false))
      ⊎ ((is_secure d i ≡ true) ⊎ (has_affinity_routing d ≡ false))
    → trigger_interrupt i none d c ≡ done (if is_on d then with_pending i true d else d, c)
trigger_interrupt_held i d c is h why = elim (Bool-cases (is_on d)) [
  | inl on ↦ rw on (
      trigger_interrupt_lem i none d c is (omega arith) on
      ∙ ground (
        arith,
        deliver_lem i none (with_pending i true d) c (with_pending-IsDistributor i true d is) h,
      ))
  | inr off ↦ rw off (unfold trigger_interrupt in ground arith)
]
