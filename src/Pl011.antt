-- ===== src/Pl011.antt =====
-- src/mmio/pl011.rs: the serial port that a guest sees. A byte that the guest prints goes to the
-- host's console, which is the list `printed` here, oldest byte first.
pub mod Fifo
use mini_visor.Base.{
  ℕ, zero, suc, ◌+◌, ◌-◌, ◌*◌, ◌^◌, bit_and, bit_or, Bool, not, none, List, [], ◌∷◌, ◌++◌, u8, u16,
  clear_bits, ◌<<<◌, ◌==◌, if◌then◌else◌, Outcome, done, ◌>>=◌, index, assign,
}
use mini_visor.Cpu.{Cpu}
use mini_visor.Gic.Distributor.{GicDistributorMmio, trigger_interrupt}

pub record Pl011Mmio : Type 0 where
  pub flag : ℕ
  pub interrupt_mask : ℕ
  pub raw_interrupt_status : ℕ
  pub control : ℕ
  pub read_buffer : List ℕ

abbrev pub uart_fr_rxfe : ℕ
uart_fr_rxfe = 2 ^ 4

abbrev pub uart_imsc_rxim : ℕ
uart_imsc_rxim = 2 ^ 4

abbrev pub uart_ris_rxris : ℕ
uart_ris_rxris = 2 ^ 4

abbrev pub pl011_int_id : ℕ
pl011_int_id = 33

unfoldable pub new : Pl011Mmio
new = record {
  flag = 0;
  interrupt_mask = 0;
  raw_interrupt_status = 0;
  control = 0;
  read_buffer = 0 ∷ 0 ∷ 0 ∷ 0 ∷ [];
}

-- `for c in &mut self.read_buffer { if *c == 0 { *c = data; break; } }`
unfoldable pub store_byte : ℕ → List ℕ → List ℕ
store_byte byte [] = []
store_byte byte (c ∷ buffer) = if c == 0 then byte ∷ buffer else c ∷ store_byte byte buffer

unfoldable pub push :
    ℕ → Pl011Mmio → GicDistributorMmio → Cpu → Outcome (Pl011Mmio × GicDistributorMmio × Cpu)
unfolding store_byte
push byte p d c =
    let stored = record p {
      read_buffer = store_byte byte p.read_buffer;
      flag = clear_bits 16 p.flag uart_fr_rxfe;
    } in
    if bit_and p.interrupt_mask uart_imsc_rxim == 0 then done (stored, d, c) else do
      (d', c') ← trigger_interrupt pl011_int_id none d c
      done (
        record stored { raw_interrupt_status = bit_or p.raw_interrupt_status uart_ris_rxris },
        d',
        c',
      )

-- `for i in 1..4 { buffer[i - 1] = buffer[i] }`, at `i` with `left` rounds to go.
unfoldable pub shift_buffer : ℕ → ℕ → List ℕ → Outcome (List ℕ)
shift_buffer zero i buffer = done buffer
shift_buffer (suc left) i buffer = do
  v ← index buffer i
  buffer' ← assign buffer (i - 1) v
  shift_buffer left (i + 1) buffer'

-- A read of UART_DR.
unfoldable pub read_data : Pl011Mmio → Outcome (ℕ × Pl011Mmio)
unfolding shift_buffer
read_data p = do
  value ← index p.read_buffer 0
  buffer ← shift_buffer 3 1 p.read_buffer
  first ← index buffer 0
  done (
    value,
    if first == 0
        then record p {
          read_buffer = buffer;
          flag = bit_or p.flag uart_fr_rxfe;
          raw_interrupt_status = clear_bits 16 p.raw_interrupt_status uart_ris_rxris;
        }
        else record p { read_buffer = buffer },
  )

unfoldable pub read : Pl011Mmio → ℕ → Outcome (ℕ × Pl011Mmio)
unfolding read_data
read p offset =
    if offset == 0
    then read_data p
    else if offset == 0x18
    then done (p.flag, p)
    else if offset == 0x30
    then done (p.control, p)
    else if offset == 0x38
    then done (p.interrupt_mask, p)
    else if offset == 0x3c
    then done (p.raw_interrupt_status, p)
    else if offset == 0xfe0
    then done (0x11, p)
    else if offset == 0xfe4
    then done (0x01 <<< 4, p)
    else if offset == 0xfe8
    then done (bit_or (0x03 <<< 4) 0x04, p)
    else if offset == 0xfec
    then done (0x00, p)
    else if offset == 0xff0
    then done (0x0d, p)
    else if offset == 0xff4
    then done (0xf0, p)
    else if offset == 0xff8
    then done (0x05, p)
    else if offset == 0xffc
    then done (0xb1, p)
    else done (0, p)

-- The new state, and the bytes printed.
unfoldable pub write : Pl011Mmio → ℕ → ℕ → Pl011Mmio × List ℕ
write p offset value =
    if offset == 0
    then (p, u8 value ∷ [])
    else if offset == 0x30
    then (record p { control = u16 value }, [])
    else if offset == 0x38
    then (record p { interrupt_mask = u16 value }, [])
    else if offset == 0x44
    then (record p { raw_interrupt_status = clear_bits 16 p.raw_interrupt_status (u16 value) }, [])
    else (p, [])
