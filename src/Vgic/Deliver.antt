-- ===== src/Vgic/Deliver.antt =====
-- What `add_virtual_interrupt` of src/vgic.rs does to the list registers.
use mini_visor.Base.{
  ℕ, zero, suc, ◌+◌, ◌-◌, ◌^◌, ◌≤◌, ◌<◌, ◌≡◌, ◌≢◌, ◌∙◌, ◌⊎◌, inl, inr, refl, bit_and, bit_or, Bool,
  if◌then◌else◌, true, false, length, set, get_or, ◌==◌, Bool-cases, Outcome, done, arith, lt→ltb,
  get_elem?-eq-get_or, get_or-set_self, get_or-set_ne, length-set, bit,
}
use mini_visor.Base.Bits.{bit_and_mask, mod-bit_or-high, bit-bit_or, bit-le-one}
use mini_visor.Cpu.{Cpu, IsCpu}
use mini_visor.Vgic.{
  ich_lrn_el2_status, ich_lrn_el2_status_pending, supported_lrn, set_ich_lrn_el2, add_from,
  add_virtual_interrupt,
}

-- The list register `i`, and what it says: inactive, and the virtual interrupt's number.
abbrev pub lr : Cpu → ℕ → ℕ
lr c i = get_or c.ich_lr i 0

abbrev pub is_inactive : ℕ → Bool
is_inactive v = bit_and v ich_lrn_el2_status == 0

abbrev pub vint_id : ℕ → ℕ
vint_id v = bit_and v (2 ^ 32 - 1)

-- Register `i` had room for the entry, now holds it as pending, and nothing else changed. A free
-- register holds the entry itself, and one that held the same interrupt its own value as pending.
pub record Delivered (entry : ℕ) (c : Cpu) (i : ℕ) (c' : Cpu) : Type 0 where
  pub supported : i < supported_lrn c
  pub had_room : (is_inactive (lr c i) ≡ true) ⊎ (vint_id (lr c i) ≡ vint_id entry)
  pub same_id : vint_id (lr c' i) ≡ vint_id entry
  pub pending : bit (lr c' i) 62 ≡ 1
  pub stored :
      lr c' i ≡ (if is_inactive (lr c i) then entry else bit_or (lr c i) ich_lrn_el2_status_pending)
  pub others : (j : ℕ) → j ≢ i → lr c' j ≡ lr c j
  pub only_registers : c' ≡ record c { ich_lr = c'.ich_lr }
  pub is_cpu : IsCpu c'

-- Register `j` is in use by another interrupt.
abbrev pub IsTaken : ℕ → Cpu → ℕ → Type 0
IsTaken entry c j = (is_inactive (lr c j) ≡ false) × (vint_id (lr c j) ≢ vint_id entry)

set-done :
    (i v : ℕ) (c : Cpu)
    → i < length c.ich_lr
    → set_ich_lrn_el2 i v c ≡ done (record c { ich_lr = set c.ich_lr i v })
unfolding set_ich_lrn_el2
set-done i v c h = rw (lt→ltb _ _ h)

Delivered-set :
    (entry : ℕ) (c : Cpu) (i v : ℕ)
    → IsCpu c
    → i < supported_lrn c
    → i < 3
    → ((is_inactive (lr c i) ≡ true) ⊎ (vint_id (lr c i) ≡ vint_id entry))
    → vint_id v ≡ vint_id entry
    → bit v 62 ≡ 1
    → v ≡ (if is_inactive (lr c i) then entry else bit_or (lr c i) ich_lrn_el2_status_pending)
    → Delivered entry c i (record c { ich_lr = set c.ich_lr i v })
Delivered-set entry c i v is s s' room id pend value = record {
  supported = s;
  had_room = room;
  same_id = rw (get_or-set_self c.ich_lr i v 0 (omega arith)) id;
  pending = rw (get_or-set_self c.ich_lr i v 0 (omega arith)) pend;
  stored = rw (get_or-set_self c.ich_lr i v 0 (omega arith)) value;
  others = λ j ne. get_or-set_ne c.ich_lr i j v 0 (λ e. ne (omega arith));
  only_registers = refl;
  is_cpu = omega (arith, length-set c.ich_lr i v);
}

vint_id-pending : (v : ℕ) → vint_id (bit_or v ich_lrn_el2_status_pending) ≡ vint_id v
vint_id-pending v =
    rw (bit_and_mask 32 v, bit_and_mask 32 (bit_or v (2 ^ 62)))
      (mod-bit_or-high 32 62 v (omega arith))

bit-pending : (v : ℕ) → bit (bit_or v ich_lrn_el2_status_pending) 62 ≡ 1
bit-pending v = omega (arith, bit-bit_or 62 v (2 ^ 62), bit-le-one v 62)

abbrev AddResult : ℕ → Cpu → Outcome Cpu → ℕ → Type 0
AddResult entry c r from =
    (c' : Cpu) × (r ≡ done c')
    × (((i : ℕ) × Delivered entry c i c')
        ⊎ ((c' ≡ c) × ((j : ℕ) → from ≤ j → j < supported_lrn c → IsTaken entry c j)))

AddResult-back :
    {entry : ℕ} {c : Cpu} {r : Outcome Cpu} (i : ℕ)
    → IsTaken entry c i
    → AddResult entry c r (i + 1)
    → AddResult entry c r i
AddResult-back i taken (c', e, inl d) = (c', e, inl d)
AddResult-back {entry} {c} i taken (c', e, inr (same, all)) = (
  c',
  e,
  inr (
    same,
    λ j p q. elim (Bool-cases (i == j)) [
      | inl here ↦ let at : i ≡ j = ground arith in rw at at taken
      | inr past ↦ all j (ground arith) q
    ],
  ),
)

add_from_lem :
    (left i entry : ℕ) (c : Cpu)
    → IsCpu c
    → bit entry 62 ≡ 1
    → i + left ≡ supported_lrn c
    → supported_lrn c ≤ 3
    → AddResult entry c (add_from left i entry c) i
unfolding add_from
add_from_lem zero i entry c is pend e le = (c, refl, inr (refl, λ j p q. absurd (omega arith)))
add_from_lem (suc left) i entry c is pend e le =
    rw (get_elem?-eq-get_or c.ich_lr i 0 (omega arith)) (elim (Bool-cases (is_inactive (lr c i))) [
      | inl free ↦
          rw (free, set-done i entry c (omega arith))
            (
              _,
              refl,
              inl (
                i,
                Delivered-set entry c i entry is (omega arith) (omega arith) (inl free) refl pend
                    (rw free refl),
              ),
            )
      | inr used ↦ elim (Bool-cases (vint_id (lr c i) == vint_id entry)) [
        | inl same ↦
            rw (used, same, set-done i (bit_or (lr c i) ich_lrn_el2_status_pending) c (omega arith))
              (
                _,
                refl,
                inl (
                  i,
                  Delivered-set entry c i _ is (omega arith) (omega arith) (inr (ground arith))
                      (vint_id-pending (lr c i) ∙ ground arith) (bit-pending (lr c i))
                      (rw used refl),
                ),
              )
        | inr other ↦
            rw (used, other)
              (AddResult-back i (used, ground arith)
                (add_from_lem left (i + 1) entry c is pend (omega arith) le))
      ]
    ])

supported_lrn-le : (c : Cpu) → supported_lrn c ≤ 3
unfolding supported_lrn
supported_lrn-le c = omega arith

-- Adding a pending entry to a CPU with its three list registers never faults. Either some
-- supported register that was inactive now holds the entry, or one that held the same interrupt
-- now holds it as pending, while every other register and field is unchanged; or every supported
-- register is in use by another interrupt, and nothing changes.
pub add_virtual_interrupt_lem :
    (entry : ℕ) (c : Cpu)
    → IsCpu c
    → bit entry 62 ≡ 1
    → (c' : Cpu) × (add_virtual_interrupt entry c ≡ done c')
      × (((i : ℕ) × Delivered entry c i c')
          ⊎ ((c' ≡ c) × ((j : ℕ) → j < supported_lrn c → IsTaken entry c j)))
unfolding add_virtual_interrupt
add_virtual_interrupt_lem entry c is pend =
    all (add_from_lem (supported_lrn c) 0 entry c is pend (omega arith) (supported_lrn-le c))
  where
    all :
        {r : Outcome Cpu}
        → AddResult entry c r 0
        → (c' : Cpu) × (r ≡ done c')
          × (((i : ℕ) × Delivered entry c i c')
              ⊎ ((c' ≡ c) × ((j : ℕ) → j < supported_lrn c → IsTaken entry c j)))
    all (c', e, inl d) = (c', e, inl d)
    all (c', e, inr (same, taken)) = (c', e, inr (same, λ j p. taken j (omega arith) p))
