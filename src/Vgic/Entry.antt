-- ===== src/Vgic/Entry.antt =====
-- The layout of the entries that `create_list_register_entry` of src/vgic.rs makes.
use mini_visor.Base.{ℕ, ◌+◌, ◌*◌, ◌/◌, ◌%◌, ◌^◌, ◌<◌, ◌≡◌, bit_or, none, some, arith, bit}
use mini_visor.Base.Bits.{bit_and_mask}
use mini_visor.Base.Bits.Fields.{bit_or_chunk, bit_or_fields, bit_or-zero, zero-bit_or}
use mini_visor.Vgic.{create_list_register_entry}
use mini_visor.Vgic.Deliver.{vint_id}

common_fields :
    (int_id group priority : ℕ)
    → int_id < 2 ^ 32
    → group < 2
    → priority < 2 ^ 8
    → bit_or
        (bit_or (bit_or (2 ^ 62) (group * 2 ^ 60 % 2 ^ 64)) (priority * 2 ^ 48 % 2 ^ 64))
        int_id
      ≡ ((4 + group) * 2 ^ 12 + priority) * 2 ^ 48 + int_id
common_fields int_id group priority p q r = ground (
  arith,
  bit_or_fields 62 1 (group * 2 ^ 60),
  bit_or_fields 60 (4 + group) (priority * 2 ^ 48),
  bit_or_fields 48 ((4 + group) * 2 ^ 12 + priority) int_id,
)

virtual_sum :
    (int_id group priority : ℕ)
    → int_id < 2 ^ 32
    → group < 2
    → priority < 2 ^ 8
    → create_list_register_entry int_id group priority none
      ≡ ((4 + group) * 2 ^ 12 + priority) * 2 ^ 48 + 2 ^ 41 + int_id
unfolding create_list_register_entry
virtual_sum int_id group priority p q r = ground (
  arith,
  common_fields int_id group priority,
  bit_or_chunk 48 ((4 + group) * 2 ^ 12 + priority) int_id 0 (2 ^ 41),
  bit_or-zero ((4 + group) * 2 ^ 12 + priority),
  bit_or_chunk 41 0 int_id 1 0,
  bit_or-zero int_id,
)

physical_sum :
    (int_id group priority physical : ℕ)
    → int_id < 2 ^ 32
    → group < 2
    → priority < 2 ^ 8
    → physical < 2 ^ 13
    → create_list_register_entry int_id group priority (some physical)
      ≡ ((6 + group) * 2 ^ 12 + priority) * 2 ^ 48 + physical * 2 ^ 32 + int_id
unfolding create_list_register_entry
physical_sum int_id group priority physical p q r s = ground (
  arith,
  common_fields int_id group priority,
  bit_or_fields 61 1 (physical * 2 ^ 32),
  bit_or_chunk 61 2 ((group * 2 ^ 12 + priority) * 2 ^ 48 + int_id) 1 (physical * 2 ^ 32),
  bit_or_chunk 48 (group * 2 ^ 12 + priority) int_id 0 (physical * 2 ^ 32),
  bit_or-zero (group * 2 ^ 12 + priority),
  bit_or_chunk 32 0 int_id physical 0,
  zero-bit_or physical,
  bit_or-zero int_id,
)

-- The fields of an entry as the architecture lays them out: the interrupt's number in the low 32
-- bits, the priority from bit 48, the group at bit 60, and the state `pending` in the top two bits.
pub record HasFields (entry int_id group priority : ℕ) : Type 0 where
  pub number : vint_id entry ≡ int_id
  pub priority_field : entry / 2 ^ 48 % 2 ^ 8 ≡ priority
  pub group_field : bit entry 60 ≡ group
  pub state : entry / 2 ^ 62 ≡ 1

HasFields-sum :
    (entry int_id group priority rest hw : ℕ)
    → entry ≡ ((4 + hw * 2 + group) * 2 ^ 12 + priority) * 2 ^ 48 + rest * 2 ^ 32 + int_id
    → int_id < 2 ^ 32
    → group < 2
    → hw < 2
    → priority < 2 ^ 8
    → rest < 2 ^ 13
    → HasFields entry int_id group priority
HasFields-sum entry int_id group priority rest hw e p q h r s = record {
  number = omega (arith, bit_and_mask 32 entry);
  priority_field = omega arith;
  group_field = omega arith;
  state = omega arith;
}

-- With a 32-bit number, a one-bit group and an 8-bit priority, the entry made for a virtual
-- interrupt holds these fields with the state `pending`, is no hardware interrupt (bit 61), and
-- asks for the maintenance interrupt (bit 41). With a physical interrupt of 13 bits it holds the
-- same fields, is marked as a hardware interrupt and names the physical one from bit 32.
pub create_list_register_entry_lem :
    (int_id group priority physical : ℕ)
    → int_id < 2 ^ 32
    → group < 2
    → priority < 2 ^ 8
    → physical < 2 ^ 13
    → let virtual = create_list_register_entry int_id group priority none in
      let hardware = create_list_register_entry int_id group priority (some physical) in
      HasFields virtual int_id group priority
      × (bit virtual 61 ≡ 0)
      × (bit virtual 41 ≡ 1)
      × HasFields hardware int_id group priority
      × (bit hardware 61 ≡ 1)
      × (hardware / 2 ^ 32 % 2 ^ 13 ≡ physical)
create_list_register_entry_lem int_id group priority physical p q r s =
    let v = virtual_sum int_id group priority p q r in
    let h = physical_sum int_id group priority physical p q r s in
    (
      HasFields-sum _ int_id group priority (2 ^ 9) 0 (omega arith) p q (omega arith) r
          (omega arith),
      omega arith,
      omega arith,
      HasFields-sum _ int_id group priority physical 1 (omega arith) p q (omega arith) r s,
      omega arith,
      omega arith,
    )
