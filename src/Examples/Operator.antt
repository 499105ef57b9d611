-- ===== src/Examples/Operator.antt =====
-- The console with a line that is typed, and numbers.
use mini_visor.Base.{
  ℕ, ◌+◌, ◌-◌, ◌%◌, ◌≤◌, ◌<◌, ◌≡◌, refl, Bool, false, true, none, some, [], ◌∷◌, Outcome, done,
  arith,
}
use mini_visor.Allocator.{MemoryAllocator, new}
use mini_visor.Cpu.{Cpu}
use mini_visor.Pl011 as Pl011
use mini_visor.Gic.Distributor as Distributor
use mini_visor.Console.{Console, Devices, Host, buffer_size, reset_buffer}
use mini_visor.Console as Console
use mini_visor.Console.Commands.{exec_words}
use mini_visor.Console.Line.{Holds, write_each, write_each-executes}
use mini_visor.Vm.{Vm, get_physical_address}
use mini_visor.Vm.Create.{kernel_virtual_address}
use mini_visor.Vm.Places.{kernel_virtual_address_lem}
use mini_visor.Boot.Numbers.{str_to_usize}
use mini_visor.Boot.Digits.{hexadecimal, str_to_usize_lem}

abbrev no_cpu : MemoryAllocator → Outcome (Bool × MemoryAllocator)
no_cpu s = done (false, s)

abbrev cpu : Cpu
cpu = record {
  mpidr_el1 = 0;
  ich_vtr_el2 = 2;
  ich_eisr_el2 = 0;
  ich_lr = 0 ∷ 0 ∷ 0 ∷ [];
  sent_sgi = [];
}

abbrev host : Host ℕ
host = record {
  console = record { buffer = Console.new.buffer; buffer_pointer = 0; ignore_lf = false };
  is_console_active = true;
  registry = record { vm_list = []; next_vm_id = 0; active_vm = none };
  devices = λ id. record { pl011_mmio = Pl011.new; gic_distributor_mmio = Distributor.new };
  cpu = cpu;
  allocator = new;
}

-- `echo`
write_each-executes_example :
    (c : Console) × Holds c (b'e' ∷ b'c' ∷ b'h' ∷ b'o' ∷ [])
    × (write_each no_cpu
          (λ bytes. true)
          (λ line. line ∷ [])
          (b'e' ∷ b'c' ∷ b'h' ∷ b'o' ∷ 13 ∷ [])
          host
        ≡ exec_words no_cpu ((b'e' ∷ b'c' ∷ b'h' ∷ b'o' ∷ []) ∷ []) (record host { console = c }))
unfolding Console.new
write_each-executes_example =
    write_each-executes no_cpu (λ bytes. true) (λ line. line ∷ []) (b'e' ∷ b'c' ∷ b'h' ∷ b'o' ∷ [])
      host refl refl (refl, (refl, (refl, (refl, tt))))

str_to_usize_lem_example : str_to_usize (b'0' ∷ b'x' ∷ b'f' ∷ b'0' ∷ []) ≡ some 240
str_to_usize_lem_example = str_to_usize_lem hexadecimal 15 (0 ∷ []) (omega arith, (omega arith, tt))

abbrev guest : Vm ℕ
guest = record {
  vm_id = 0;
  ram_virtual_base_address = 0x40000000;
  ram_physical_base_address = 0x80000000;
  ram_size = 0x10000000;
  mmio_handlers = [];
}

kernel_virtual_address_lem_example :
    (a : ℕ) × (kernel_virtual_address 0x12345 ≡ done a)
    × (a % 0x200000 ≡ 0)
    × (0x40012345 ≤ a)
    × (a < 0x40212345)
    × (get_physical_address guest a ≡ done (some (0x80000000 + (a - 0x40000000))))
kernel_virtual_address_lem_example =
    kernel_virtual_address_lem guest 0x12345
      (record { is_base = refl; is_size = refl; physical_fits = omega arith }) (omega arith)
