-- ===== src/Cpu.antt =====
-- The system registers of one physical CPU that the virtual interrupt code reads and writes
-- through the accessors of src/asm.rs, and the affinity field of MPIDR_EL1.
use mini_visor.Base.{ℕ, ◌+◌, ◌^◌, ◌≡◌, List, [], ◌∷◌, ◌++◌, clear_bits, length}

pub record Cpu : Type 0 where
  pub mpidr_el1 : ℕ
  pub ich_vtr_el2 : ℕ
  pub ich_eisr_el2 : ℕ
  -- ICH_LR0_EL2 to ICH_LR2_EL2
  pub ich_lr : List ℕ
  -- the values written to ICC_SGI1R_EL1, oldest first: each write sends an interrupt
  pub sent_sgi : List ℕ

-- The accessors know three list registers.
abbrev pub IsCpu : Cpu → Type 0
IsCpu c = length c.ich_lr ≡ 3

unfoldable pub mpidr_to_affinity : ℕ → ℕ
mpidr_to_affinity mpidr = clear_bits 64 mpidr (2 ^ 31 + 2 ^ 30)

unfoldable pub set_icc_sgi1r_el1 : ℕ → Cpu → Cpu
set_icc_sgi1r_el1 v c = record c { sent_sgi = c.sent_sgi ++ v ∷ [] }
