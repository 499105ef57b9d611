-- ===== src/Exception.antt =====
-- src/exception.rs: what a guest's access of a device costs. The assembly that saves x0 to x30 is
-- the list `registers` of 32 words, whose last one stands for xzr.
pub mod DataAbort
use mini_visor.Base.{
  ℕ, ◌+◌, ◌-◌, ◌*◌, ◌^◌, bit_and, bit_or, Bool, not, List, u64, ◌>>>◌, ◌<<<◌, ◌==◌, if◌then◌else◌,
  Outcome, done, panic, ◌>>=◌, index, assign, unwrap, add64,
}
use mini_visor.Vm.{Vm, handle_mmio_read, handle_mmio_write}

-- The saved registers, and the system registers that describe the exception.
pub record Trap : Type 0 where
  pub registers : List ℕ
  pub esr_el2 : ℕ
  pub hpfar_el2 : ℕ
  pub far_el2 : ℕ
  pub elr_el2 : ℕ

abbrev pub esr_el2_ec : ℕ
esr_el2_ec = 0b111111 * 2 ^ 26

abbrev pub esr_el2_ec_data_abort : ℕ
esr_el2_ec_data_abort = 0b100100 * 2 ^ 26

abbrev pub esr_el2_iss_isv : ℕ
esr_el2_iss_isv = 2 ^ 24

abbrev pub esr_el2_iss_sas : ℕ
esr_el2_iss_sas = 0b11 * 2 ^ 22

abbrev pub esr_el2_iss_srt : ℕ
esr_el2_iss_srt = 0b11111 * 2 ^ 16

abbrev pub esr_el2_iss_sf : ℕ
esr_el2_iss_sf = 2 ^ 15

abbrev pub esr_el2_iss_wnr : ℕ
esr_el2_iss_wnr = 2 ^ 6

abbrev pub hpfar_el2_fipa : ℕ
hpfar_el2_fipa = bit_and (2 ^ 44 - 1) (2 ^ 64 - 1 - (2 ^ 4 - 1))

-- The bits of an access in bits, from the field SAS; no other value of two bits is left.
unfoldable pub access_width : ℕ → Outcome ℕ
access_width esr =
    let sas = bit_and esr esr_el2_iss_sas >>> 22 in
    if sas == 0
    then done 8
    else if sas == 1
    then done 16
    else if sas == 2
    then done 32
    else if sas == 3
    then done 64
    else panic

unfoldable pub register_number : ℕ → ℕ
register_number esr = bit_and esr esr_el2_iss_srt >>> 16

unfoldable pub fault_address : Trap → ℕ
fault_address t =
    bit_or (u64 ((bit_and t.hpfar_el2 hpfar_el2_fipa >>> 4) <<< 12))
      (bit_and t.far_el2 (2 ^ 12 - 1))

module _ {S : Type 0} where
  -- `asm::advance_elr_el2` is a checked sum; `expect` panics on the error of a handler.
  unfoldable pub data_abort_handler : Vm S → Trap → S → Outcome (Trap × S)
  data_abort_handler vm t s = if bit_and t.esr_el2 esr_el2_iss_isv == 0 then panic else do
    width ← access_width t.esr_el2
    let n = register_number t.esr_el2
    register ← index t.registers n
    if not (bit_and t.esr_el2 esr_el2_iss_wnr == 0)
        then (do
          let value =
              if not (bit_and t.esr_el2 esr_el2_iss_sf == 0)
              then register
              else bit_and register (2 ^ 32 - 1)
          (answer, s') ← handle_mmio_write vm (fault_address t) width value s
          accepted ← unwrap answer
          elr_el2 ← add64 t.elr_el2 4
          done (record t { elr_el2 = elr_el2 }, s'))
        else (do
          (answer, s') ← handle_mmio_read vm (fault_address t) width s
          value ← unwrap answer
          registers ← assign t.registers n value
          elr_el2 ← add64 t.elr_el2 4
          done (record t { registers = registers; elr_el2 = elr_el2 }, s'))

  unfoldable pub synchronous_handler : Vm S → Trap → S → Outcome (Trap × S)
  synchronous_handler vm t s =
      if bit_and t.esr_el2 esr_el2_ec == esr_el2_ec_data_abort
      then data_abort_handler vm t s
      else panic
