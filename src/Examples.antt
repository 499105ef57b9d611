-- ===== src/Examples.antt =====
-- The theorems at concrete inputs, and tests of the definitions.
mod Data
mod Vgic
mod Gic
mod Devices
mod Guest
mod Tree
mod Host
mod Memory
mod Mappings
mod Rings
mod Queues
mod Files
mod Operator
