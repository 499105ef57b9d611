-- ===== src/Paging/Pages.antt =====
-- What the loop at level 3 of src/paging.rs writes.
use mathlib.Core.Path.{subst}
use mini_visor.Base.{
  ℕ, zero, suc, ◌+◌, ◌-◌, ◌*◌, ◌^◌, ◌<◌, ◌≤◌, ◌≡◌, ◌∙◌, refl, ap, arith, ◌⊎◌, inl, inr, true, false,
  done, leb, ltb, ◌==◌, min, Bool-cases,
}
use mini_visor.Paging.{Mapping, page_descriptor, map_pages, put_leaf, write}

-- `n` pages are mapped by the descriptors from `address` on, and no other descriptor has changed.
pub record MapsPages (address permission n : ℕ) (m m' : Mapping) : Type 0 where
  pub physical : m'.physical_address ≡ m.physical_address + n * 4096
  pub intermediate : m'.intermediate_physical_address ≡ m.intermediate_physical_address + n * 4096
  pub remaining : m'.remaining_size + n * 4096 ≡ m.remaining_size
  pub same_allocator : m'.allocator ≡ m.allocator
  pub mapped :
      (i : ℕ)
      → i < n
      → m'.memory (address + i * 8) ≡ page_descriptor (m.physical_address + i * 4096) permission
  pub others : (a : ℕ) → (a < address) ⊎ (address + n * 8 ≤ a) → m'.memory a ≡ m.memory a

put_leaf_fits :
    (address descriptor size : ℕ) (m : Mapping)
    → m.physical_address + size < 2 ^ 64
    → m.intermediate_physical_address + size < 2 ^ 64
    → size ≤ m.remaining_size
    → put_leaf address descriptor size m
      ≡ done (record m {
        physical_address = m.physical_address + size;
        intermediate_physical_address = m.intermediate_physical_address + size;
        remaining_size = m.remaining_size - size;
        memory = write m.memory address descriptor;
      })
unfolding put_leaf
put_leaf_fits address descriptor size m p i r =
    let e : ltb (m.physical_address + size) (2 ^ 64) ≡ true = ground arith in
    let e' : ltb (m.intermediate_physical_address + size) (2 ^ 64) ≡ true = ground arith in
    let e'' : leb size m.remaining_size ≡ true = ground arith in rw e (rw e' (rw e'' refl))

MapsPages-zero : (address permission : ℕ) (m : Mapping) → MapsPages address permission 0 m m
MapsPages-zero address permission m = record {
  physical = omega arith;
  intermediate = omega arith;
  remaining = omega arith;
  same_allocator = refl;
  mapped = λ i lt. absurd (omega (arith, lt));
  others = λ a out. refl;
}

-- The arguments after one page.
abbrev stepped : ℕ → ℕ → Mapping → Mapping
stepped address permission m = record m {
  physical_address = m.physical_address + 4096;
  intermediate_physical_address = m.intermediate_physical_address + 4096;
  remaining_size = m.remaining_size - 4096;
  memory = write m.memory address (page_descriptor m.physical_address permission);
}

MapsPages-suc :
    (address permission k : ℕ) (m m' : Mapping)
    → 4096 ≤ m.remaining_size
    → MapsPages (address + 8) permission k (stepped address permission m) m'
    → MapsPages address permission (suc k) m m'
MapsPages-suc address permission k m m' room h = record {
  physical = omega (arith, h.physical);
  intermediate = omega (arith, h.intermediate);
  remaining = omega (arith, h.remaining);
  same_allocator = h.same_allocator;
  mapped = each;
  others = λ a out.
      let next : (a < address + 8) ⊎ (address + 8 + k * 8 ≤ a) = elim out [
        | inl below ↦ inl (omega arith)
        | inr above ↦ inr (omega arith)
      ] in
      let ne : (a == address) ≡ false = elim out [
        | inl below ↦ ground arith
        | inr above ↦ ground arith
      ] in
      h.others a next ∙ rw ne refl;
}
  where
    each :
        (i : ℕ)
        → i < suc k
        → m'.memory (address + i * 8) ≡ page_descriptor (m.physical_address + i * 4096) permission
    each zero lt =
        let here : (address + 0 * 8 == address) ≡ true = ground arith in
        h.others (address + 0 * 8) (inl (omega arith))
        ∙ rw here (ap (λ (p : ℕ). page_descriptor p permission) (omega arith))
    each (suc i) lt =
        ap m'.memory (omega arith)
        ∙ h.mapped i (omega arith)
        ∙ ap (λ (p : ℕ). page_descriptor p permission) (omega arith)

pub map_pages_lem :
    (count address permission n : ℕ) (m : Mapping)
    → 0 < n
    → m.remaining_size ≡ n * 4096
    → m.physical_address + n * 4096 < 2 ^ 64
    → m.intermediate_physical_address + n * 4096 < 2 ^ 64
    → (m' : Mapping) × (map_pages count address permission m ≡ done m')
      × MapsPages address permission (min count n) m m'
unfolding map_pages
map_pages_lem zero address permission n m pos size p i = (
  m,
  refl,
  subst (λ (k : ℕ). MapsPages address permission k m m) (omega arith)
      (MapsPages-zero address permission m),
)
map_pages_lem (suc count) address permission n m pos size p i =
    let fits =
      put_leaf_fits address (page_descriptor m.physical_address permission) 4096 m (omega arith)
        (omega arith) (omega arith) in
    elim (Bool-cases (m.remaining_size - 4096 == 0)) [
      | inl last ↦ (
        stepped address permission m,
        rw fits (rw last refl),
        subst (λ (k : ℕ). MapsPages address permission k m (stepped address permission m))
            (ground arith)
            (MapsPages-suc address permission 0 m _ (omega arith)
              (MapsPages-zero (address + 8) permission (stepped address permission m))),
      )
      | inr more ↦
          let (m', e, maps) =
            map_pages_lem count (address + 8) permission (n - 1) (stepped address permission m)
              (ground arith) (omega arith) (omega arith) (omega arith) in
          (
            m',
            rw fits (rw more e),
            subst (λ (k : ℕ). MapsPages address permission k m m') (ground arith)
                (MapsPages-suc address permission (min count (n - 1)) m m' (omega arith) maps),
          )
    ]
