-- ===== src/Boot.antt =====
-- The start of the hypervisor, src/main.rs: what it knows of the memory, of the volume and of the
-- CPUs, and how it reads a number.
pub mod Numbers
pub mod Digits
pub mod Ram
pub mod Volume
pub mod Cpus
use mini_visor.Base.{Option, none, some, Outcome, done, panic, out_of_fuel}
use mini_visor.Dtb.{Parsed, found, fails, panics, exhausted}
use mini_visor.Allocator.{Result, ok, err, panic as faults, out_of_fuel as stops}

-- What the device tree reader answers.
abbrev pub answer {ℓ} : {A : Type ℓ} → Parsed A → Outcome (Option A)
answer (found a) = done (some a)
answer fails = done none
answer panics = panic
answer exhausted = out_of_fuel

-- `expect` of a result of the memory allocator.
abbrev pub expect {ℓ} : {A : Type ℓ} → Result A → Outcome A
expect (ok a) = done a
expect (err e) = panic
expect faults = panic
expect stops = out_of_fuel
