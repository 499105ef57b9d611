-- ===== src/Vgic.antt =====
-- src/vgic.rs: the list registers through which a virtual interrupt reaches the guest.
pub mod Deliver
pub mod Entry
use mini_visor.Base.{
  ℕ, zero, suc, ◌+◌, ◌-◌, ◌*◌, ◌^◌, min, bit_and, bit_or, Bool, Option, none, some, length, set,
  u64, ◌<<<◌, ◌==◌, if◌then◌else◌, Outcome, done, ◌>>=◌, index, assign,
}
use mini_visor.Cpu.{Cpu}

abbrev pub ich_lrn_el2_status : ℕ
ich_lrn_el2_status = 3 * 2 ^ 62

abbrev pub ich_lrn_el2_status_inactive : ℕ
ich_lrn_el2_status_inactive = 0

abbrev pub ich_lrn_el2_status_pending : ℕ
ich_lrn_el2_status_pending = 2 ^ 62

abbrev pub ich_lrn_el2_hw : ℕ
ich_lrn_el2_hw = 2 ^ 61

abbrev pub ich_lrn_el2_eoi : ℕ
ich_lrn_el2_eoi = 2 ^ 41

abbrev pub ich_vtr_el2_list_regs : ℕ
ich_vtr_el2_list_regs = 31

-- `GET_ICH_LRN_EL2.len()`
abbrev pub number_of_accessors : ℕ
number_of_accessors = 3

unfoldable pub create_list_register_entry : ℕ → ℕ → ℕ → Option ℕ → ℕ
create_list_register_entry int_id group priority physical_int_id =
    let entry =
      bit_or
        (bit_or (bit_or ich_lrn_el2_status_pending (u64 (group <<< 60))) (u64 (priority <<< 48)))
        int_id in
    elim physical_int_id [
      | some p_int_id ↦ bit_or entry (bit_or ich_lrn_el2_hw (u64 (p_int_id <<< 32)))
      | none ↦ bit_or entry ich_lrn_el2_eoi
    ]

unfoldable pub supported_lrn : Cpu → ℕ
supported_lrn c = min (bit_and c.ich_vtr_el2 ich_vtr_el2_list_regs + 1) number_of_accessors

-- `SET_ICH_LRN_EL2[i](entry)`
unfoldable pub set_ich_lrn_el2 : ℕ → ℕ → Cpu → Outcome Cpu
set_ich_lrn_el2 i entry c = do lrs ← assign c.ich_lr i entry; done (record c { ich_lr = lrs })

-- The loop over the list registers, at register `i` with `left` registers to go.
unfoldable pub add_from : ℕ → ℕ → ℕ → Cpu → Outcome Cpu
unfolding set_ich_lrn_el2
add_from zero i entry c = done c
add_from (suc left) i entry c =
    let rest = add_from left (i + 1) entry c in
    do
      ich_lrn_el2 ← index c.ich_lr i
      if bit_and ich_lrn_el2 ich_lrn_el2_status == ich_lrn_el2_status_inactive
          then set_ich_lrn_el2 i entry c
          else if bit_and ich_lrn_el2 (2 ^ 32 - 1) == bit_and entry (2 ^ 32 - 1)
          then set_ich_lrn_el2 i (bit_or ich_lrn_el2 ich_lrn_el2_status_pending) c
          else rest

unfoldable pub add_virtual_interrupt : ℕ → Cpu → Outcome Cpu
unfolding add_from supported_lrn
add_virtual_interrupt entry c = add_from (supported_lrn c) 0 entry c
