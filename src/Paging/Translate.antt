-- ===== src/Paging/Translate.antt =====
-- The pages that the CPU sees through a table of level 3 of src/paging.rs.
use mini_visor.Base.{
  ℕ, ◌+◌, ◌-◌, ◌*◌, ◌/◌, ◌%◌, ◌^◌, ◌<◌, ◌≤◌, ◌≡◌, ◌∙◌, refl, ap, arith, ◌⊎◌, inl, inr, true, done,
  Option, none, some, ◌==◌, bit_and, min, if◌then◌else◌,
}
use mini_visor.Base.Bits.{bit_and_mask}
use mini_visor.Paging.{Memory, Mapping, page_descriptor, map_pages}
use mini_visor.Paging.Words.{page_descriptor_lem}
use mini_visor.Paging.Pages.{map_pages_lem}
use mini_visor.Paging.Tables.{map_level}

-- The physical address and the permission bits of a virtual address, as a walk reads them from the
-- last table.
abbrev pub walk_page : Memory → ℕ → ℕ → Option (ℕ × ℕ)
walk_page memory table x =
    let d = memory (table + x / 4096 % 512 * 8) in
    if d % 4 == 3 then some (d / 4096 % 2 ^ 40 * 4096 + x % 4096, d / 64 % 4) else none

walk_page-descriptor :
    (memory : Memory) (table x q permission : ℕ)
    → q < 2 ^ 40
    → permission < 4
    → memory (table + x / 4096 % 512 * 8) ≡ page_descriptor (q * 4096) permission
    → walk_page memory table x ≡ some (q * 4096 + x % 4096, permission)
walk_page-descriptor memory table x q permission hq hp e =
    let word = page_descriptor_lem q (omega arith) permission hp in
    let d : memory (table + x / 4096 % 512 * 8) ≡ q * 4096 + (1855 + permission * 64) = e ∙ word in
    let page : ((q * 4096 + (1855 + permission * 64)) % 4 == 3) ≡ true = ground arith in
    let address : (q * 4096 + (1855 + permission * 64)) / 4096 % 2 ^ 40 ≡ q = omega arith in
    let rights : (q * 4096 + (1855 + permission * 64)) / 64 % 4 ≡ permission = omega arith in
    rw d (
      rw page (
        ap (λ (a : ℕ). some (a * 4096 + x % 4096, (q * 4096 + (1855 + permission * 64)) / 64 % 4))
          address
        ∙ ap (λ (r : ℕ). some (q * 4096 + x % 4096, r)) rights))

walk_page-same :
    (memory memory' : Memory) (table x : ℕ)
    → memory' (table + x / 4096 % 512 * 8) ≡ memory (table + x / 4096 % 512 * 8)
    → walk_page memory' table x ≡ walk_page memory table x
walk_page-same memory memory' table x e =
    ap
      (λ (d : ℕ).
        if d % 4 == 3 then some (d / 4096 % 2 ^ 40 * 4096 + x % 4096, d / 64 % 4) else none)
      e

map_level-page :
    (table permission v : ℕ) (m m' : Mapping)
    → m.intermediate_physical_address ≡ v * 4096
    → map_pages (512 - v % 512) (table + v % 512 * 8) permission m ≡ done m'
    → map_level 0 table permission 512 m ≡ done (some m')
unfolding map_level
map_level-page table permission v m m' ipa e =
    let index : bit_and (m.intermediate_physical_address / 2 ^ 12) 511 ≡ v % 512 =
      bit_and_mask 9 (m.intermediate_physical_address / 2 ^ 12) ∙ omega (arith, ipa) in
    rw index (rw e refl)

-- For page-aligned addresses, a positive number of pages, a physical range below 2^52 and an
-- intermediate one below 2^64, _map_address_stage2 succeeds on a table of level 3. A walk then takes
-- each address of the range that the table covers to its place in the physical range, with the
-- permission, and every other address of the table to where it was taken before.
pub map_level-walk_page :
    (table permission q v n : ℕ) (m : Mapping)
    → permission < 4
    → 0 < n
    → m.physical_address ≡ q * 4096
    → m.intermediate_physical_address ≡ v * 4096
    → m.remaining_size ≡ n * 4096
    → q + n ≤ 2 ^ 40
    → v + n < 2 ^ 52
    → (m' : Mapping) × (map_level 0 table permission 512 m ≡ done (some m'))
      × ((x : ℕ)
          → v * 4096 ≤ x
          → x < (v + min (512 - v % 512) n) * 4096
          → walk_page m'.memory table x ≡ some (q * 4096 + (x - v * 4096), permission))
      × ((x : ℕ)
          → x / 4096 / 512 ≡ v / 512
          → (x < v * 4096) ⊎ ((v + min (512 - v % 512) n) * 4096 ≤ x)
          → walk_page m'.memory table x ≡ walk_page m.memory table x)
map_level-walk_page table permission q v n m hp pos pa ipa size low high =
    let (m', e, h) =
      map_pages_lem (512 - v % 512) (table + v % 512 * 8) permission n m pos size (omega arith)
        (omega arith) in
    (
      m',
      map_level-page table permission v m m' ipa e,
      λ x lo hi.
          let i : ℕ = x / 4096 - v in
          let at : table + x / 4096 % 512 * 8 ≡ table + v % 512 * 8 + i * 8 = omega arith in
          walk_page-descriptor m'.memory table x (q + i) permission (omega arith) hp (
            ap m'.memory at
            ∙ h.mapped i (omega arith)
            ∙ ap (λ (p : ℕ). page_descriptor p permission) (omega (arith, pa)))
          ∙ ap (λ (p : ℕ). some (p, permission)) (omega arith),
      λ x same out. walk_page-same m.memory m'.memory table x (
          h.others (table + x / 4096 % 512 * 8)
            (elim out [ inl below ↦ inl (omega arith) | inr above ↦ inr (omega arith) ])),
    )
