-- ===== src/Gic.antt =====
-- src/mmio/gicv3.rs: the interrupt controller that a guest sees.
pub mod Bank
pub mod Distributor
pub mod Redistributor
pub mod Handlers
