-- ===== src/Gic/Handlers/Inject.antt =====
-- What `inject_interrupt_handler` of src/mmio/gicv3.rs does to the queues and the list registers.
use mini_visor.Base.{
  ℕ, ◌<◌, ◌≡◌, ◌⊎◌, ◌∙◌, refl, sym, ap, true, false, Bool-cases, ◌==◌, bit, bit_and, List, [], ◌∷◌,
  done, arith, inl, inr,
}
use mathlib.Core.Path.{subst}
use mini_visor.Base.Bits.{bit-bit_and, bit-zero}
use mini_visor.Cpu.{Cpu, IsCpu}
use mini_visor.Vgic.{ich_lrn_el2_status, supported_lrn, add_virtual_interrupt}
use mini_visor.Vgic.Deliver.{
  lr, is_inactive, vint_id, IsTaken, Delivered, add_virtual_interrupt_lem,
}
use mini_visor.Gic.Handlers.{GuestGic, inject_all, inject_interrupt_handler}

-- Every entry is marked as pending, as `create_list_register_entry` makes it.
abbrev pub AllPending : List ℕ → Type 0
AllPending [] = Unit
AllPending (entry ∷ queue) = (bit entry 62 ≡ 1) × AllPending queue

-- A list register that was in use is in use for the same interrupt, and one that was pending is
-- still pending; no other register of the CPU has changed.
pub record Keeps (c c' : Cpu) : Type 0 where
  pub in_use :
      (j : ℕ)
      → is_inactive (lr c j) ≡ false
      → (is_inactive (lr c' j) ≡ false) × (vint_id (lr c' j) ≡ vint_id (lr c j))
  pub pending : (j : ℕ) → bit (lr c j) 62 ≡ 1 → bit (lr c' j) 62 ≡ 1
  pub only_registers : c' ≡ record c { ich_lr = c'.ich_lr }
  pub is_cpu : IsCpu c'

Keeps-refl : (c : Cpu) → IsCpu c → Keeps c c
Keeps-refl c is = record {
  in_use = λ j e. (e, refl);
  pending = λ j e. e;
  only_registers = refl;
  is_cpu = is;
}

Keeps-trans : (a b c : Cpu) → Keeps a b → Keeps b c → Keeps a c
Keeps-trans a b c p q = record {
  in_use = λ j e.
      let first = p.in_use j e in let second = q.in_use j first.0 in (second.0, second.1 ∙ first.1);
  pending = λ j e. q.pending j (p.pending j e);
  only_registers =
      q.only_registers ∙ ap (λ (x : Cpu). record x { ich_lr = c.ich_lr }) p.only_registers;
  is_cpu = q.is_cpu;
}

pending-is_inactive : (v : ℕ) → bit v 62 ≡ 1 → is_inactive v ≡ false
pending-is_inactive v h = elim (Bool-cases (is_inactive v)) [
  | inl free ↦
      let zero_status : bit_and v ich_lrn_el2_status ≡ 0 = ground arith in
      let e = bit-bit_and 62 v ich_lrn_el2_status in
      absurd (omega (arith, e, ap (λ (x : ℕ). bit x 62) zero_status, bit-zero 62))
  | inr used ↦ used
]

-- At the register that the entry went into, for a register that was in use.
Delivered-here :
    (entry : ℕ) (c : Cpu) (i : ℕ) (c' : Cpu)
    → Delivered entry c i c'
    → is_inactive (lr c i) ≡ false
    → (is_inactive (lr c' i) ≡ false) × (vint_id (lr c' i) ≡ vint_id (lr c i))
Delivered-here entry c i c' d e = elim d.had_room [
  | inl free ↦ let bad : true ≡ false = sym free ∙ e in absurd cc
  | inr same ↦ (pending-is_inactive (lr c' i) d.pending, d.same_id ∙ sym same)
]

Delivered-Keeps : (entry : ℕ) (c : Cpu) (i : ℕ) (c' : Cpu) → Delivered entry c i c' → Keeps c c'
Delivered-Keeps entry c i c' d = record {
  in_use = λ j e. elim (Bool-cases (j == i)) [
    | inl same ↦
        let at : i ≡ j = ground arith in
        subst
          (λ (k : ℕ).
            is_inactive (lr c k) ≡ false
            → (is_inactive (lr c' k) ≡ false) × (vint_id (lr c' k) ≡ vint_id (lr c k)))
          at (Delivered-here entry c i c' d) e
    | inr other ↦
        let kept = d.others j (λ (at : j ≡ i). ground arith) in
        (ap is_inactive kept ∙ e, ap vint_id kept)
  ];
  pending = λ j e. elim (Bool-cases (j == i)) [
    | inl same ↦
        let at : i ≡ j = ground arith in subst (λ (k : ℕ). bit (lr c' k) 62 ≡ 1) at d.pending
    | inr other ↦
        let kept = d.others j (λ (at : j ≡ i). ground arith) in ap (λ (v : ℕ). bit v 62) kept ∙ e
  ];
  only_registers = d.only_registers;
  is_cpu = d.is_cpu;
}

-- The interrupt of the entry is pending in a supported list register.
abbrev pub IsPending : ℕ → Cpu → Type 0
IsPending entry c =
    (k : ℕ) × (k < supported_lrn c) × (vint_id (lr c k) ≡ vint_id entry) × (bit (lr c k) 62 ≡ 1)

-- Every supported list register is in use by another interrupt than that of the entry.
abbrev pub HasNoRoom : ℕ → Cpu → Type 0
HasNoRoom entry c = (j : ℕ) → j < supported_lrn c → IsTaken entry c j

-- Every entry of the queue has its interrupt pending in a list register, unless all are in use by
-- other interrupts.
abbrev pub AllPlaced : List ℕ → Cpu → Type 0
AllPlaced [] c = Unit
AllPlaced (entry ∷ queue) c = (IsPending entry c ⊎ HasNoRoom entry c) × AllPlaced queue c

supported_lrn-Keeps : (c c' : Cpu) → Keeps c c' → supported_lrn c' ≡ supported_lrn c
unfolding supported_lrn
supported_lrn-Keeps c c' k = ap supported_lrn k.only_registers

placed-Keeps :
    (entry : ℕ) (c c' : Cpu)
    → Keeps c c'
    → IsPending entry c ⊎ HasNoRoom entry c
    → IsPending entry c' ⊎ HasNoRoom entry c'
placed-Keeps entry c c' k (inl (j, lt, same, pend)) =
    let size = supported_lrn-Keeps c c' k in
    let used = k.in_use j (pending-is_inactive (lr c j) pend) in
    inl (j, omega (arith, size, lt), used.1 ∙ same, k.pending j pend)
placed-Keeps entry c c' k (inr full) =
    let size = supported_lrn-Keeps c c' k in
    inr (λ j lt.
      let taken = full j (omega (arith, size, lt)) in
      let used = k.in_use j taken.0 in (used.0, λ e. taken.1 (sym used.1 ∙ e)))

AllPlaced-Keeps :
    (queue : List ℕ) (c c' : Cpu) → Keeps c c' → AllPlaced queue c → AllPlaced queue c'
AllPlaced-Keeps [] c c' k placed = tt
AllPlaced-Keeps (entry ∷ queue) c c' k placed =
    (placed-Keeps entry c c' k placed.0, AllPlaced-Keeps queue c c' k placed.1)

add-Keeps :
    (entry : ℕ) (c : Cpu)
    → IsCpu c
    → bit entry 62 ≡ 1
    → (c' : Cpu) × (add_virtual_interrupt entry c ≡ done c')
      × Keeps c c'
      × (IsPending entry c' ⊎ HasNoRoom entry c')
add-Keeps entry c is pend =
    let (c', e, cases) = add_virtual_interrupt_lem entry c is pend in
    elim cases [
      | inl (i, d) ↦
          let k = Delivered-Keeps entry c i c' d in
          let size = supported_lrn-Keeps c c' k in
          let lt = d.supported in (c', e, k, inl (i, omega (arith, size, lt), d.same_id, d.pending))
      | inr (same, full) ↦ (c, e ∙ ap done same, Keeps-refl c is, inr full)
    ]

inject_all-Keeps :
    (queue : List ℕ) (c : Cpu)
    → IsCpu c
    → AllPending queue
    → (c' : Cpu) × (inject_all queue c ≡ done c') × Keeps c c' × AllPlaced queue c'
unfolding inject_all
inject_all-Keeps [] c is pend = (c, refl, Keeps-refl c is, tt)
inject_all-Keeps (entry ∷ queue) c is pend =
    let (c', e, k, here) = add-Keeps entry c is pend.0 in
    let (c'', e', k', placed) = inject_all-Keeps queue c' k.is_cpu pend.1 in
    (c'', rw (e, e') refl, Keeps-trans c c' c'' k k', (placed-Keeps entry c' c'' k' here, placed))

-- If the entries of both queues are pending ones, the handler succeeds and empties both queues.
-- Afterwards every entry that was queued has its interrupt pending in a supported list register,
-- unless all the supported registers are in use by other interrupts. Nothing else of the devices
-- changes, and a list register that was in use is in use for the same interrupt, and still pending
-- if it was.
pub inject_interrupt_handler_lem :
    (g : GuestGic)
    → IsCpu g.cpu
    → AllPending g.distributor.to_inject_interrupt
    → AllPending g.redistributor.to_inject_interrupt
    → (c' : Cpu) × (inject_interrupt_handler g
        ≡ done (record {
          distributor = record g.distributor { to_inject_interrupt = [] };
          redistributor = record g.redistributor { to_inject_interrupt = [] };
          cpu = c';
        }))
      × Keeps g.cpu c'
      × AllPlaced g.distributor.to_inject_interrupt c'
      × AllPlaced g.redistributor.to_inject_interrupt c'
unfolding inject_interrupt_handler
inject_interrupt_handler_lem g is p q =
    let (c, e, k, first) = inject_all-Keeps g.distributor.to_inject_interrupt g.cpu is p in
    let (c', e', k', second) = inject_all-Keeps g.redistributor.to_inject_interrupt c k.is_cpu q in
    (
      c',
      rw (e, e') refl,
      Keeps-trans g.cpu c c' k k',
      AllPlaced-Keeps g.distributor.to_inject_interrupt c c' k' first,
      second,
    )
