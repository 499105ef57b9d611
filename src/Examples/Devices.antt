-- ===== src/Examples/Devices.antt =====
-- Examples for src/mmio/pl011.rs.
use mini_visor.Base.{ℕ, ◌≡◌, refl, none, List, [], ◌∷◌, length, bit, done, arith}
use mini_visor.Gic.Distributor.{GicDistributorMmio, trigger_interrupt}
use mini_visor.Pl011.{Pl011Mmio, push, read}
use mini_visor.Pl011.Fifo.{
  Holds, received, push-Holds, read_data-Holds, read_times, read_times-full,
}
use mini_visor.Examples.Data.{idle_cpu, ready}

abbrev fresh : Pl011Mmio
fresh = record {
  flag = 0;
  interrupt_mask = 0;
  raw_interrupt_status = 0;
  control = 0;
  read_buffer = 0 ∷ 0 ∷ 0 ∷ 0 ∷ [];
}

abbrev off : GicDistributorMmio
off = record ready { ctlr = 0 }

quiet : trigger_interrupt 33 none off idle_cpu ≡ done (off, idle_cpu)
unfolding trigger_interrupt
quiet = refl

fresh-Holds : Holds fresh []
fresh-Holds = record { nonzero = tt; fits = omega arith; buffer = refl }

push-Holds_example :
    (p' : Pl011Mmio) × (push 65 fresh off idle_cpu ≡ done (p', off, idle_cpu))
    × Holds p' (received 65 [])
    × (bit p'.flag 4 ≡ 0)
    × (bit p'.raw_interrupt_status 4 ≡ 0)
push-Holds_example =
    push-Holds 65 [] fresh off off idle_cpu idle_cpu fresh-Holds (omega arith) quiet

abbrev one : Pl011Mmio
one = record fresh { read_buffer = 65 ∷ 0 ∷ 0 ∷ 0 ∷ [] }

read_data-Holds_example :
    (p' : Pl011Mmio) × (read one 0 ≡ done (65, p'))
    × Holds p' []
    × (bit p'.flag 4 ≡ 1)
    × (bit p'.raw_interrupt_status 4 ≡ 0)
read_data-Holds_example =
    read_data-Holds 65 [] one (record { nonzero = omega arith; fits = omega arith; buffer = refl })
      (omega arith)

abbrev crowded : Pl011Mmio
crowded = record fresh { read_buffer = 1 ∷ 2 ∷ 3 ∷ 4 ∷ [] }

read_times-full_example :
    (xs : List ℕ) × (p' : Pl011Mmio) × (read_times 10 crowded ≡ done p')
    × Holds p' xs
    × (length xs ≡ 4)
    × (p'.flag ≡ crowded.flag)
    × (p'.raw_interrupt_status ≡ crowded.raw_interrupt_status)
read_times-full_example =
    read_times-full 10 1 2 3 4 crowded
      (record { nonzero = omega arith; fits = omega arith; buffer = refl })
