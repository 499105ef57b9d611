-- ===== src/Console/Commands.antt =====
-- The commands of src/console.rs. A command answers whether the console stays active.
use mini_visor.Base.{
  ℕ, Bool, true, not, Option, none, some, Outcome, done, panic, ◌>>=◌, List, [], ◌∷◌, same_bytes,
  if◌then◌else◌,
}
use mini_visor.Allocator.{MemoryAllocator}
use mini_visor.Vm.{switch_active_vm}
use mini_visor.Boot.Numbers.{str_to_usize}
use mini_visor.Console.{Host, reset_buffer}

pub data Command : Type 0 where
  boot : Command
  switch : Command
  echo : Command
  poweroff : Command

-- `COMMAND_LIST`
abbrev pub command_list : List (List ℕ × Command)
command_list =
    (b'b' ∷ b'o' ∷ b'o' ∷ b't' ∷ [], boot)
    ∷ (b's' ∷ b'w' ∷ b'i' ∷ b't' ∷ b'c' ∷ b'h' ∷ [], switch)
    ∷ (b'e' ∷ b'c' ∷ b'h' ∷ b'o' ∷ [], echo)
    ∷ (b'p' ∷ b'o' ∷ b'w' ∷ b'e' ∷ b'r' ∷ b'o' ∷ b'f' ∷ b'f' ∷ [], poweroff)
    ∷ []

-- `COMMAND_LIST.iter().find(|&&(c, _)| c == command)`
unfoldable pub find_command : List ℕ → List (List ℕ × Command) → Option Command
find_command name [] = none
find_command name ((c, f) ∷ commands) =
    if same_bytes c name then some f else find_command name commands

module _ {S : Type 0} (launch_cpu : MemoryAllocator → Outcome (Bool × MemoryAllocator)) where
  unfoldable pub boot_vm : Host S → Outcome (Bool × Host S)
  boot_vm h = do
    (is_launched, allocator) ← launch_cpu h.allocator
    done (not is_launched, record h { allocator = allocator })

  unfoldable pub switch_vm : List (List ℕ) → Host S → Outcome (Bool × Host S)
  unfolding str_to_usize switch_active_vm
  switch_vm [] h = done (true, h)
  switch_vm (arg ∷ args) h = elim (str_to_usize arg) [
    | none ↦ done (true, h)
    | some vm_id ↦
        (let switched = switch_active_vm vm_id h.registry in
          done (not switched.1, record h { registry = switched.0 }))
  ]

  -- The machine is off after `poweroff`, and the code behind the call of the firmware is `unreachable!`.
  unfoldable pub run_command : Command → List (List ℕ) → Host S → Outcome (Bool × Host S)
  unfolding boot_vm switch_vm
  run_command boot args h = boot_vm h
  run_command switch args h = switch_vm args h
  run_command echo args h = done (true, h)
  run_command poweroff args h = panic

  -- The words of the line.
  unfoldable pub exec_words : List (List ℕ) → Host S → Outcome (Host S)
  unfolding find_command run_command reset_buffer
  exec_words [] h = done (record h { console = reset_buffer h.console })
  exec_words (command ∷ args) h = elim (find_command command command_list) [
    | none ↦ done (record h { console = reset_buffer h.console })
    | some f ↦ (do
      (stays, h') ← run_command f args h
      done (
          if stays
          then record h' { console = reset_buffer h'.console }
          else record h' { is_console_active = not h'.is_console_active }))
  ]
