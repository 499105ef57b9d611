-- ===== src/Examples/Tree.antt =====
-- Examples for src/dtb.rs.
use mini_visor.Base.{ℕ, ◌%◌, ◌≡◌, refl, true, [], ◌∷◌, get_or, arith}
use mini_visor.Dtb.{found, dtb_at, skip_nop}
use mini_visor.Dtb.Property.{is_property_compatible}
use mini_visor.Dtb.Skip.{NopSkipped, skip_nop_lem}
use mini_visor.Dtb.Strings.{is_property_compatible_lem}

-- The strings `xy` and `x`.
abbrev names : ℕ → ℕ
names a = get_or (0x78 ∷ 0x79 ∷ 0 ∷ 0x78 ∷ 0 ∷ []) a 0xff

is_property_compatible_lem_example :
    is_property_compatible names
      (record { address = 0; address_cells = 2; size_cells = 1; len = 5 })
      (0x78 ∷ [])
    ≡ found true
is_property_compatible_lem_example =
    is_property_compatible_lem names
      (record { address = 0; address_cells = 2; size_cells = 1; len = 5 }) (0x78 ∷ [])
      ((0x78 ∷ 0x79 ∷ []) ∷ (0x78 ∷ []) ∷ []) ((λ e. omega arith), tt)
      (((λ e. omega arith), ((λ e. omega arith), tt)), (((λ e. omega arith), tt), tt))
      ((refl, (refl, refl)), ((refl, refl), tt)) refl

-- A tree of two NOPs and the start of a node, from address 40.
abbrev tree : ℕ → ℕ
tree a =
    get_or
      (0xd0 ∷ 0x0d ∷ 0xfe ∷ 0xed ∷ 0 ∷ 0 ∷ 0 ∷ 52 ∷ 0 ∷ 0 ∷ 0 ∷ 40 ∷ 0 ∷ 0 ∷ 0 ∷ 52 ∷ 0 ∷ 0 ∷ 0 ∷ 0
        ∷ 0 ∷ 0 ∷ 0 ∷ 17 ∷ 0 ∷ 0 ∷ 0 ∷ 16 ∷ 0 ∷ 0 ∷ 0 ∷ 0 ∷ 0 ∷ 0 ∷ 0 ∷ 0 ∷ 0 ∷ 0 ∷ 0 ∷ 12 ∷ 0 ∷ 0
        ∷ 0 ∷ 4 ∷ 0 ∷ 0 ∷ 0 ∷ 4 ∷ 0 ∷ 0 ∷ 0 ∷ 1 ∷ [])
      a 0

skip_nop_lem_example : NopSkipped tree (dtb_at 0) 40 (skip_nop tree 4 (dtb_at 0) 40)
skip_nop_lem_example = skip_nop_lem tree (dtb_at 0) 3 40 (omega arith)

abbrev counting : ℕ → ℕ
counting a = a % 256
