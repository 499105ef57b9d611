-- ===== src/Examples/Vgic.antt =====
-- Examples for src/vgic.rs.
use mini_visor.Base.{ℕ, ◌<◌, ◌+◌, ◌^◌, ◌≡◌, refl, ◌⊎◌, some, [], ◌∷◌, done}
use mini_visor.Cpu.{Cpu}
use mini_visor.Vgic.{create_list_register_entry, supported_lrn, add_virtual_interrupt}
use mini_visor.Vgic.Deliver.{Delivered, IsTaken, add_virtual_interrupt_lem}
use mini_visor.Examples.Data.{idle_cpu}

abbrev entry : ℕ
entry = 2 ^ 62 + 33

add_virtual_interrupt_lem_example :
    (c' : Cpu) × (add_virtual_interrupt entry idle_cpu ≡ done c')
    × (((i : ℕ) × Delivered entry idle_cpu i c')
        ⊎ ((c' ≡ idle_cpu) × ((j : ℕ) → j < supported_lrn idle_cpu → IsTaken entry idle_cpu j)))
add_virtual_interrupt_lem_example = add_virtual_interrupt_lem entry idle_cpu refl refl

first_register :
    add_virtual_interrupt entry idle_cpu ≡ done (record idle_cpu { ich_lr = entry ∷ 0 ∷ 0 ∷ [] })
unfolding add_virtual_interrupt
first_register = refl

timer_entry : create_list_register_entry 27 1 0 (some 27) ≡ 0x7000001b0000001b
unfolding create_list_register_entry
timer_entry = refl
