-- ===== src/Console/Input.antt =====
-- The lines of src/console.rs, and the bytes of the serial port that src/main.rs hands to the console
-- or to the active VM.
use mini_visor.Base.{
  ℕ, ◌+◌, Bool, true, false, not, ◌&&◌, ◌||◌, Option, none, some, Outcome, done, ◌>>=◌, List, [],
  ◌∷◌, assign, take, ◌==◌, leb, if◌then◌else◌,
}
use mini_visor.Allocator.{MemoryAllocator}
use mini_visor.Pl011.{push}
use mini_visor.Vm.{get_active_vm}
use mini_visor.Console.{Console, Host, Devices, buffer_size, reset_buffer}
use mini_visor.Console.Commands.{exec_words}

abbrev pub carriage_return : ℕ
carriage_return = 13

abbrev pub line_feed : ℕ
line_feed = 10

-- Ctrl + S
abbrev pub console_switch_key : ℕ
console_switch_key = 0x13

abbrev pub is_ascii_control : ℕ → Bool
is_ascii_control c = leb c 31 || c == 127

-- `write` of a byte that does not end the line.
unfoldable pub put_byte : ℕ → Console → Outcome Console
put_byte byte c = if is_ascii_control byte || c.buffer_pointer == buffer_size then done c else do
  buffer ← assign c.buffer c.buffer_pointer byte
  done (record c { buffer = buffer; buffer_pointer = c.buffer_pointer + 1 })

-- `vm::input_uart`. The devices of a VM are those that its id names.
unfoldable pub input_uart : {S : Type 0} → ℕ → Host S → Outcome (Host S)
unfolding get_active_vm push
input_uart byte h = do
  vm ← get_active_vm h.registry
  let d : Devices = h.devices vm.vm_id
  (pl011, distributor, cpu) ← push byte d.pl011_mmio d.gic_distributor_mmio h.cpu
  done (record h {
    devices = λ id.
        if id == vm.vm_id
        then record { pl011_mmio = pl011; gic_distributor_mmio = distributor }
        else h.devices id;
    cpu = cpu;
  })

module _ {S : Type 0} (launch_cpu : MemoryAllocator → Outcome (Bool × MemoryAllocator))
    (is_utf8 : List ℕ → Bool) (split_whitespace : List ℕ → List (List ℕ)) where
  unfoldable pub exec_command : Host S → Outcome (Host S)
  unfolding reset_buffer exec_words
  exec_command h =
      let input = take h.console.buffer_pointer h.console.buffer in
      if h.console.buffer_pointer == 0
      then done (record h { console = reset_buffer h.console })
      else if is_utf8 input
      then exec_words launch_cpu (split_whitespace input) h
      else done (record h { console = reset_buffer h.console })

  unfoldable pub write : ℕ → Host S → Outcome (Host S)
  unfolding exec_command put_byte
  write byte h =
      if byte == carriage_return || (byte == line_feed && not h.console.ignore_lf)
      then exec_command
          (record h { console = record h.console { ignore_lf = byte == carriage_return } })
      else do c ← put_byte byte h.console; done (record h { console = c })

  -- The loop over what `getc` answers: an error is `none`, and behind the list there is nothing to read.
  unfoldable pub handle_input : List (Option ℕ) → Host S → Outcome (Host S)
  unfolding write input_uart reset_buffer
  handle_input [] h = done h
  handle_input (none ∷ answers) h = done h
  handle_input (some byte ∷ answers) h = elim (byte == 0) [
    | true ↦ done h
    | false ↦ (do
      h' ←
          (if byte == console_switch_key
            then done (record h {
              is_console_active = not h.is_console_active;
              console = if h.is_console_active then h.console else reset_buffer h.console;
            })
            else if h.is_console_active
            then write byte h
            else input_uart byte h)
      handle_input answers h')
  ]
