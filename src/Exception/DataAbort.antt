-- ===== src/Exception/DataAbort.antt =====
-- The decoding of a data abort in src/exception.rs, and what the handler does to the guest.
use mini_visor.Base.{
  ℕ, zero, suc, ◌+◌, ◌*◌, ◌/◌, ◌%◌, ◌^◌, ◌<◌, ◌≡◌, ◌∙◌, refl, bit_and, not, some, length, set,
  get_or, bit, ◌==◌, if◌then◌else◌, done, panic, arith, get_elem?-eq-get_or, lt→ltb,
}
use mini_visor.Base.Bits.{bit_and_mask, bit_and-two_pow, bit_and-shifted, bit_and-field}
use mini_visor.Base.Bits.Fields.{bit_or_fields}
use mini_visor.Vm.{Vm, handle_mmio_read, handle_mmio_write}
use mini_visor.Exception.{
  Trap, access_width, register_number, fault_address, data_abort_handler, synchronous_handler,
}

-- The field of `n` bits from bit `k` of a word.
abbrev pub bits : ℕ → ℕ → ℕ → ℕ
bits x k n = x / 2 ^ k % 2 ^ n

-- The width of the access is 8, 16, 32 or 64 bits by the field SAS; the decoding never panics.
access_width_lem : (esr : ℕ) → access_width esr ≡ done (8 * 2 ^ bits esr 22 2)
unfolding access_width
access_width_lem esr = rw (bit_and-field 2 22 esr) (pow_cases (bits esr 22 2) (omega arith))
  where
    pow_cases :
        (n : ℕ)
        → n < 4
        → (if n == 0
            then done 8
            else if n == 1
            then done 16
            else if n == 2
            then done 32
            else if n == 3
            then done 64
            else panic)
          ≡ done (8 * 2 ^ n)
    pow_cases zero h = refl
    pow_cases (suc zero) h = refl
    pow_cases (suc (suc zero)) h = refl
    pow_cases (suc (suc (suc zero))) h = refl
    pow_cases (suc (suc (suc (suc n)))) h = absurd (omega arith)

-- The address of the access: the page from HPFAR_EL2, the place in the page from FAR_EL2.
fault_address_lem :
    (t : Trap) → fault_address t ≡ bits t.hpfar_el2 4 40 * 2 ^ 12 + t.far_el2 % 2 ^ 12
unfolding fault_address
fault_address_lem t = ground (
  arith,
  bit_and-field 40 4 t.hpfar_el2,
  bit_and_mask 12 t.far_el2,
  bit_or_fields 12 (bits t.hpfar_el2 4 40) (t.far_el2 % 2 ^ 12),
)

register_number_lem : (esr : ℕ) → register_number esr ≡ bits esr 16 5
unfolding register_number
register_number_lem esr = bit_and-field 5 16 esr

-- A data abort with a valid description, from a guest whose 32 registers are saved and whose next
-- instruction has an address.
pub record IsDataAbort (t : Trap) : Type 0 where
  pub saved : length t.registers ≡ 32
  pub class : bits t.esr_el2 26 6 ≡ 0b100100
  pub described : bit t.esr_el2 24 ≡ 1
  pub next_fits : t.elr_el2 + 4 < 2 ^ 64

abbrev pub target : Trap → ℕ
target t = bits t.esr_el2 16 5

abbrev pub width : Trap → ℕ
width t = 8 * 2 ^ bits t.esr_el2 22 2

abbrev pub address : Trap → ℕ
address t = bits t.hpfar_el2 4 40 * 2 ^ 12 + t.far_el2 % 2 ^ 12

enters :
    {S : Type 0} (vm : Vm S) (t : Trap) (s : S)
    → bits t.esr_el2 26 6 ≡ 0b100100
    → synchronous_handler vm t s ≡ data_abort_handler vm t s
unfolding synchronous_handler
enters vm t s e = rw (bit_and-shifted 26 t.esr_el2 63, bit_and_mask 6 (t.esr_el2 / 2 ^ 26), e)

-- The test of the flag SF is a test of its bit.
cut :
    (masked flag register : ℕ)
    → masked ≡ flag * 2 ^ 15
    → flag < 2
    → (if not (masked == 0) then register else register % 2 ^ 32)
      ≡ (if flag == 1 then register else register % 2 ^ 32)
cut masked flag register e h = ground arith

module _ {S : Type 0} (vm : Vm S) (t : Trap) (s s' : S) (is : IsDataAbort t) where
  -- With an instruction behind it in the 64-bit address space, a load that the device answers puts
  -- the answer into the register that the syndrome names, leaves the others alone, and lets the
  -- guest go on behind the instruction.
  pub synchronous_handler_load :
      (v : ℕ)
      → bit t.esr_el2 6 ≡ 0
      → handle_mmio_read vm (address t) (width t) s ≡ done (some v, s')
      → synchronous_handler vm t s
        ≡ done (record t { registers = set t.registers (target t) v; elr_el2 = t.elr_el2 + 4 }, s')
  unfolding data_abort_handler
  synchronous_handler_load v load answer =
      enters vm t s is.class
      ∙ rw (
        bit_and-two_pow 24 t.esr_el2,
        is.described,
        access_width_lem t.esr_el2,
        register_number_lem t.esr_el2,
        get_elem?-eq-get_or t.registers (target t) 0 (omega (arith, is.saved)),
        bit_and-two_pow 6 t.esr_el2,
        load,
        fault_address_lem t,
        answer,
        lt→ltb (target t) (length t.registers) (omega (arith, is.saved)),
        lt→ltb (t.elr_el2 + 4) (2 ^ 64) is.next_fits,
      )

  -- With an instruction behind it in the 64-bit address space, a store hands the device the
  -- register that the syndrome names, cut to 32 bits if the register is a 32-bit one; if the device
  -- accepts it, the registers do not change and the guest goes on behind the instruction.
  pub synchronous_handler_store :
      bit t.esr_el2 6 ≡ 1
      → handle_mmio_write vm
          (address t)
          (width t)
          (if bit t.esr_el2 15 == 1
            then get_or t.registers (target t) 0
            else get_or t.registers (target t) 0 % 2 ^ 32)
          s
        ≡ done (some tt, s')
      → synchronous_handler vm t s ≡ done (record t { elr_el2 = t.elr_el2 + 4 }, s')
  unfolding data_abort_handler
  synchronous_handler_store store answer =
      enters vm t s is.class
      ∙ rw
          (
            bit_and-two_pow 24 t.esr_el2,
            is.described,
            access_width_lem t.esr_el2,
            register_number_lem t.esr_el2,
            get_elem?-eq-get_or t.registers (target t) 0 (omega (arith, is.saved)),
            bit_and-two_pow 6 t.esr_el2,
            store,
            fault_address_lem t,
            bit_and_mask 32 (get_or t.registers (target t) 0),
          )
          (rw
            (cut (bit_and t.esr_el2 (2 ^ 15)) (bit t.esr_el2 15) (get_or t.registers (target t) 0)
              (bit_and-two_pow 15 t.esr_el2) (omega arith))
            (rw (answer, lt→ltb (t.elr_el2 + 4) (2 ^ 64) is.next_fits)))
