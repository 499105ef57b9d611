-- ===== src/Psci/Answers.antt =====
-- What src/psci.rs makes of the firmware's answers.
use mini_visor.Base.{
  ℕ, zero, suc, ◌+◌, ◌*◌, ◌%◌, ◌^◌, ◌<◌, ◌≡◌, ◌≢◌, ◌∙◌, refl, ◌⊎◌, inl, inr, Bool-cases, false,
  ◌==◌, arith, List, [], ◌∷◌, get_or,
}
use mini_visor.Base.Bits.{bit_and_mask}
use mini_visor.Psci.{
  PsciErrorCodes, success, not_supported, invalid_parameters, denied, already_on, on_pending,
  internal_failure, not_present, disabled, invalid_address, unknown, ok, err, low, from_u64,
  is_success, check_psci_version, cpu_on,
}

-- The codes in the order of the numbers 0, -1, -2 and so on that stand for them.
abbrev pub codes : List PsciErrorCodes
codes =
    success ∷ not_supported ∷ invalid_parameters ∷ denied ∷ already_on ∷ on_pending
    ∷ internal_failure ∷ not_present ∷ disabled ∷ invalid_address ∷ []

-- An answer whose low 32 bits are the number -n is read as the code of that number, and as
-- `unknown` if there is none.
pub from_u64_lem :
    (n value : ℕ)
    → n < 2 ^ 32
    → (low value + n) % 2 ^ 32 ≡ 0
    → from_u64 value ≡ get_or codes n unknown
unfolding from_u64
from_u64_lem zero value b h = ground arith
from_u64_lem (suc zero) value b h = ground arith
from_u64_lem (suc (suc zero)) value b h = ground arith
from_u64_lem (suc (suc (suc zero))) value b h = ground arith
from_u64_lem (suc (suc (suc (suc zero)))) value b h = ground arith
from_u64_lem (suc (suc (suc (suc (suc zero))))) value b h = ground arith
from_u64_lem (suc (suc (suc (suc (suc (suc zero)))))) value b h = ground arith
from_u64_lem (suc (suc (suc (suc (suc (suc (suc zero))))))) value b h = ground arith
from_u64_lem (suc (suc (suc (suc (suc (suc (suc (suc zero)))))))) value b h = ground arith
from_u64_lem (suc (suc (suc (suc (suc (suc (suc (suc (suc zero))))))))) value b h = ground arith
from_u64_lem (suc (suc (suc (suc (suc (suc (suc (suc (suc (suc n)))))))))) value b h = ground arith

is_success-from_u64 : (value : ℕ) → is_success (from_u64 value) ≡ low value == 0
unfolding from_u64
is_success-from_u64 value = ground arith

module _ (smc : ℕ → ℕ → ℕ → ℕ → ℕ) where
  -- If the firmware answers with a major number of 15 bits over a minor one of 16, these are the
  -- version.
  pub check_psci_version_lem :
      (major minor : ℕ)
      → major < 2 ^ 15
      → minor < 2 ^ 16
      → smc 0x84000000 0 0 0 ≡ major * 2 ^ 16 + minor
      → check_psci_version smc ≡ ok (major, minor)
  unfolding check_psci_version
  check_psci_version_lem major minor p q e =
      ground (arith, bit_and_mask 16 (major * 2 ^ 16 + minor))

  -- Starting a CPU succeeds exactly if the low 32 bits of the firmware's answer are 0.
  pub cpu_on_lem :
      (target_cpu entry_point argument : ℕ)
      → ((low (smc 0xC4000003 target_cpu entry_point argument) ≡ 0)
          × (cpu_on smc target_cpu entry_point argument ≡ ok tt))
        ⊎ ((low (smc 0xC4000003 target_cpu entry_point argument) ≢ 0)
            × (code : PsciErrorCodes) × (cpu_on smc target_cpu entry_point argument ≡ err code)
            × (is_success code ≡ false))
  unfolding cpu_on
  cpu_on_lem target_cpu entry_point argument = elim (Bool-cases (low answer == 0)) [
    | inl e ↦ inl (ground arith, rw (is_success-from_u64 answer, e) refl)
    | inr e ↦ inr (
      ground arith,
      from_u64 answer,
      rw (is_success-from_u64 answer, e) refl,
      is_success-from_u64 answer ∙ e,
    )
  ]
    where
      answer : ℕ
      answer = smc 0xC4000003 target_cpu entry_point argument
