-- ===== src/Examples/Data.antt =====
-- The values that the examples share: a CPU with three empty list registers, and a distributor
-- that is on, routes by affinity and has interrupt 33 enabled.
use mini_visor.Base.{ℕ, refl, [], ◌∷◌, replicate, set, length-replicate}
use mini_visor.Cpu.{Cpu}
use mini_visor.Gic.Distributor.{GicDistributorMmio}
use mini_visor.Gic.Distributor.Status.{IsDistributor}

abbrev pub idle_cpu : Cpu
idle_cpu = record {
  mpidr_el1 = 0x80000000;
  ich_vtr_el2 = 3;
  ich_eisr_el2 = 0;
  ich_lr = 0 ∷ 0 ∷ 0 ∷ [];
  sent_sgi = [];
}

-- The same on another CPU.
abbrev pub far_cpu : Cpu
far_cpu = record idle_cpu { mpidr_el1 = 0x80000001 }

abbrev pub ready : GicDistributorMmio
ready = record {
  ctlr = 0x12;
  group = replicate 32 0;
  enable = set (replicate 32 0) 1 2;
  pending = replicate 32 0;
  active = replicate 32 0;
  priority = replicate 255 0;
  configuration = replicate 64 0;
  group_modifier = replicate 32 0;
  router = replicate 1020 0;
  to_inject_interrupt = [];
}

pub ready-IsDistributor : IsDistributor ready
ready-IsDistributor = record {
  group = refl;
  enable = refl;
  pending = refl;
  active = refl;
  priority = length-replicate {A = ℕ} 255 0;
  configuration = refl;
  group_modifier = refl;
  router = length-replicate {A = ℕ} 1020 0;
}

-- A distributor whose interrupt 1020 is enabled.
abbrev pub last_enabled : GicDistributorMmio
last_enabled = record ready { enable = set (replicate 32 0) 31 (0xf0000000) }

pub last_enabled-IsDistributor : IsDistributor last_enabled
last_enabled-IsDistributor = record {
  group = refl;
  enable = refl;
  pending = refl;
  active = refl;
  priority = length-replicate {A = ℕ} 255 0;
  configuration = refl;
  group_modifier = refl;
  router = length-replicate {A = ℕ} 1020 0;
}
