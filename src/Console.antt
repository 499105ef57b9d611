-- ===== src/Console.antt =====
-- The operator's console: src/console.rs, and `handle_input` of src/main.rs and `input_uart` of
-- src/vm.rs, which feed it. What is printed is not modelled. Whether bytes are UTF-8, and where
-- white space divides them, is for the core library, and a parameter.
pub mod Commands
pub mod Input
pub mod Line
use mini_visor.Base.{ℕ, Bool, false, List, [], replicate, Option}
use mini_visor.Cpu.{Cpu}
use mini_visor.Gic.Distributor.{GicDistributorMmio}
use mini_visor.Pl011.{Pl011Mmio}
use mini_visor.Vm.{Registry}
use mini_visor.Allocator.{MemoryAllocator}

pub record Console : Type 0 where
  pub buffer : List ℕ
  pub buffer_pointer : ℕ
  pub ignore_lf : Bool

abbrev pub buffer_size : ℕ
buffer_size = 64

unfoldable pub new : Console
new = record { buffer = replicate 64 0; buffer_pointer = 0; ignore_lf = false }

-- The devices of a VM that input reaches.
pub record Devices : Type 0 where
  pub pl011_mmio : Pl011Mmio
  pub gic_distributor_mmio : GicDistributorMmio

-- What the console works on: itself, `IS_CONSOLE_ACTIVE`, the VMs and their devices by id, the CPU
-- that it runs on, and the allocator.
pub record Host (S : Type 0) : Type 0 where
  pub console : Console
  pub is_console_active : Bool
  pub registry : Registry S
  pub devices : ℕ → Devices
  pub cpu : Cpu
  pub allocator : MemoryAllocator

unfoldable pub reset_buffer : Console → Console
reset_buffer c = record c { buffer_pointer = 0 }
