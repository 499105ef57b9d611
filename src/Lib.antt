-- ===== src/Lib.antt =====
-- MiniVisor: a library of definitions and theorems about the hypervisor.
--
-- MiniVisor runs guests on an ARMv8-A machine at EL2. A guest's access of a device traps; the
-- exception handler decodes it from the syndrome registers, finds the device by its address in the
-- table of the current VM, and lets the device answer. The devices are a GICv3 distributor and
-- redistributor, a PL011 and a virtio block device. An interrupt for a guest becomes pending in
-- the virtual GIC; if it may be delivered it is put into a list register of the CPU, or queued for
-- the CPU that its affinity names, which a software interrupt then wakes.
--
-- Parts:
--   Base        results of code that may panic (`Outcome`), machine words, bits, lists.
--   Cpu         src/asm.rs: the system registers that the modelled code uses, as a record.
--   Vgic        src/vgic.rs: list register entries and their delivery.
--   Gic         src/mmio/gicv3.rs: Gic/Bank has what the register arrays have in common,
--               Gic/Distributor and Gic/Redistributor the two devices (their accessors and
--               trigger_interrupt; the `Mmio` module of each the guest's reads and writes),
--               Gic/Handlers the interrupt handlers, with those of src/vgic.rs.
--   Pl011       src/mmio/pl011.rs.
--   Vm          src/vm.rs: the table of devices, address translation, the list of VMs; Vm/Create
--               create_vm, over the volume and the stage 2 tables.
--   Exception   src/exception.rs: the synchronous exception handler.
--   Dtb         src/dtb.rs: the device tree reader; Dtb/Search, Dtb/Compatible and Dtb/Property
--               the searches and the properties.
--   Lock        src/lock.rs: the steps of the CPUs that share a mutex.
--   Psci        src/psci.rs, with the firmware call as a parameter.
--   Elf         src/elf.rs: the header and the iterator over program headers.
--   Allocator   src/memory_allocator.rs: the pool and one entry; Allocator/Chains the free lists and
--               the searches, Allocator/Uses allocate and define_used_memory, Allocator/Frees
--               free and define_free_memory. The other modules below it have the proofs.
--   Paging      src/paging.rs: the descriptors and the loop at level 3; Paging/Tables the levels above
--               and the two functions that the rest of the hypervisor calls. Tables come from
--               the memory allocator (allocate_pages of src/main.rs). The other modules below
--               it have the proofs.
--   VirtioBlk   src/mmio/virtio_blk.rs: the device and its rings; VirtioBlk/Operation the requests in
--               the rings, VirtioBlk/Mmio the registers.
--   Fat32       src/fat32.rs: the volume and the walk along the table; Fat32/Mount reads them from the
--               device, Fat32/Names searches the root directory, Fat32/Read and Fat32/Write
--               transfer a part of a file, and Fat32/Device makes a file the disk of a guest.
--               The physical block device is a parameter. The other modules below it have the
--               proofs.
--   Boot        src/main.rs: Boot/Ram the memory at the start, Boot/Volume the partition table,
--               Boot/Cpus the start of another CPU, Boot/Numbers the reading of numbers.
--   Console     src/console.rs: the line that the operator types and its commands; Console/Input has
--               the input of src/main.rs, which goes to the console or to the active VM.
--   Examples    the theorems applied at concrete states.
--
-- A struct is a record with the field names of the source, and a method is a function of the same
-- name that takes the record and returns the new one. `&mut` arguments are passed and returned. A
-- `Result<_, ()>` is an `Option`, and `Outcome` is `panic` where the source panics: an index out of
-- range, a failed assertion, an `unwrap` of nothing, a checked sum or difference that leaves the
-- word. (The build sets no profile, so overflow is checked as in a development build.) Shifts and
-- casts are written with `u8` to `u64`, which cut a number to that many bits. The device handlers
-- of src/vm.rs are a record of functions on a state that is a parameter, as the trait is. The memory
-- allocator has a result type of its own, with the errors of the source beside panics.
--
-- Three sums of the source have no bound in the model: those of addresses of the device tree in
-- src/dtb.rs, since a tree lies in memory below the end of the address space; get_size of
-- src/memory_allocator.rs, since a well-formed pool has no entry of the whole address space; and the
-- counter of VM ids in src/vm.rs, which wraps after 2^64 VMs.
--
-- Loops are structural where their bound is in the source. The loop of the GIC that triggers the
-- interrupts of a written word runs until the 64-bit value is 0; its fuel is 65, since each of the
-- 64 bits is shifted out in one round and the last round sees 0.
-- The loops of the device tree reader run on fuel that the caller gives, a round for each token or
-- byte, with one exception: the comparison of a name with a list of strings has twice the length
-- and one, since each byte is looked at twice at most.
-- The lists of the memory allocator have an entry of the pool in each round, so their loops have 64
-- rounds, which a list without a cycle never uses up; define_free_memory calls itself on the rest
-- of a range, and its caller gives the fuel.
-- The loops of the virtio block device follow rings in the guest's memory, which may be cyclic, so
-- their fuel is the caller's.
-- The inner loops of read and of write in src/fat32.rs take a byte of the request in each round, so
-- they have its length and two rounds. Their outer loops can follow a table that never ends; the
-- caller gives their rounds after the first.
--
-- Not modelled: assembly and volatile accesses of physical devices (src/drivers, most of
-- src/asm.rs), the set-up of those devices in src/main.rs and the order in which it boots, what is
-- printed for the host's operator (src/serial.rs, list_files of src/fat32.rs), the locks around
-- the shared objects, which a handler holds for its whole run.
mod Base
pub mod Cpu
pub mod Vgic
pub mod Gic
pub mod Pl011
pub mod Vm
pub mod Exception
pub mod Dtb
pub mod Lock
pub mod Psci
pub mod Elf
pub mod Allocator
pub mod Paging
pub mod VirtioBlk
pub mod Fat32
pub mod Boot
pub mod Console
mod Examples
