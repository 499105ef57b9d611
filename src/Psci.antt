-- ===== src/Psci.antt =====
-- The client of the firmware interface, src/psci.rs. The firmware call `smc` is a parameter.
pub mod Answers
use mini_visor.Base.{ℕ, ◌-◌, ◌%◌, ◌^◌, bit_and, Bool, true, false, ◌==◌, if◌then◌else◌, ◌>>>◌, u16}

pub data PsciErrorCodes : Type 0 where
  success : PsciErrorCodes
  not_supported : PsciErrorCodes
  invalid_parameters : PsciErrorCodes
  denied : PsciErrorCodes
  already_on : PsciErrorCodes
  on_pending : PsciErrorCodes
  internal_failure : PsciErrorCodes
  not_present : PsciErrorCodes
  disabled : PsciErrorCodes
  invalid_address : PsciErrorCodes
  unknown : PsciErrorCodes

pub data PsciResult (A : Type 0) : Type 0 where
  ok : A → PsciResult A
  err : PsciErrorCodes → PsciResult A

-- The 32 bits that `as i32` keeps, and those of the number -n.
abbrev pub low : ℕ → ℕ
low value = value % 2 ^ 32

abbrev pub minus : ℕ → ℕ
minus n = 2 ^ 32 - n

unfoldable pub from_u64 : ℕ → PsciErrorCodes
from_u64 value =
    if low value == 0
    then success
    else if low value == minus 1
    then not_supported
    else if low value == minus 2
    then invalid_parameters
    else if low value == minus 3
    then denied
    else if low value == minus 4
    then already_on
    else if low value == minus 5
    then on_pending
    else if low value == minus 6
    then internal_failure
    else if low value == minus 7
    then not_present
    else if low value == minus 8
    then disabled
    else if low value == minus 9
    then invalid_address
    else unknown

abbrev pub is_success : PsciErrorCodes → Bool
is_success success = true
is_success not_supported = false
is_success invalid_parameters = false
is_success denied = false
is_success already_on = false
is_success on_pending = false
is_success internal_failure = false
is_success not_present = false
is_success disabled = false
is_success invalid_address = false
is_success unknown = false

module _ (smc : ℕ → ℕ → ℕ → ℕ → ℕ) where
  unfoldable pub check_psci_version : PsciResult (ℕ × ℕ)
  check_psci_version =
      let version = smc 0x84000000 0 0 0 in
      if low version == minus 1
      then err not_supported
      else ok (u16 (version >>> 16), u16 (bit_and version 0xffff))

  unfoldable pub cpu_on : ℕ → ℕ → ℕ → PsciResult (Unit {0})
  unfolding from_u64
  cpu_on target_cpu entry_point argument =
      let error_code = from_u64 (smc 0xC4000003 target_cpu entry_point argument) in
      if is_success error_code then ok tt else err error_code
