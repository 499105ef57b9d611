-- ===== src/Paging/Lookup.antt =====
-- What src/paging.rs writes into VTCR_EL2 is what it reads from it.
use mathlib.Core.Path.{subst}
use mini_visor.Base.{
  ℕ, zero, suc, ◌+◌, ◌-◌, ◌*◌, ◌%◌, ◌^◌, ◌<◌, ◌≤◌, ◌≡◌, ◌∙◌, refl, sym, ap, arith, Bool, true,
  false, ◌&&◌, done, unwrap, ◌==◌, leb, u8, bit_and, leb→le, Bool-cases, inl, inr,
}
use mini_visor.Base.{of_Yields, Yields-bind, Yields-any, yields, Yields, ltb}
use mini_visor.Base.Bits.{bit_and_mask}
use mini_visor.Paging.{number_of_concatenated_page_tables, allocate_pages, init_table}
use mini_visor.Paging.Tables.{
  Stage2, lookup_of, vtcr_of, initial_lookup_level, t0sz_of, init_stage2_translation_table,
}

all_below : ℕ → (ℕ → Bool) → Bool
all_below zero f = true
all_below (suc n) f = f n && all_below n f

all_below_lem : (n i : ℕ) (f : ℕ → Bool) → all_below n f ≡ true → i < n → f i ≡ true
unfolding all_below
all_below_lem zero i f h lt = absurd (omega arith)
all_below_lem (suc n) i f h lt = elim (Bool-cases (f n)) [
  | inl on ↦ elim (Bool-cases (i == n)) [
    | inl same ↦ let at : n ≡ i = ground arith in subst (λ (k : ℕ). f k ≡ true) at on
    | inr other ↦
        let rest : all_below n f ≡ true = sym (ap (λ (b : Bool). b && all_below n f) on) ∙ h in
        all_below_lem n i f rest (ground arith)
  ]
  | inr off ↦ let bad : false ≡ true = sym (ap (λ (b : Bool). b && all_below n f) off) ∙ h in cc
]

-- The number of tables for a range of physical addresses.
abbrev tables_of : ℕ → ℕ
tables_of ps = number_of_concatenated_page_tables (u8 (lookup_of ps).0) (lookup_of ps).1

level_checked : all_below 16 (λ (p : ℕ). initial_lookup_level (vtcr_of p) == (lookup_of p).1) ≡ true
unfolding all_below initial_lookup_level vtcr_of
level_checked = refl

size_checked : all_below 16 (λ (p : ℕ). t0sz_of (vtcr_of p) == (lookup_of p).0) ≡ true
unfolding all_below t0sz_of vtcr_of
size_checked = refl

small_checked : all_below 16 (λ (p : ℕ). u8 (lookup_of p).0 == (lookup_of p).0) ≡ true
unfolding all_below lookup_of
small_checked = refl

-- All tables of the first level together cover the addresses.
covers : ℕ → Bool
unfolding lookup_of number_of_concatenated_page_tables
covers ps = leb (2 ^ (64 - (lookup_of ps).0)) (tables_of ps * 2 ^ (12 + 9 * (4 - (lookup_of ps).1)))

cover_checked : all_below 16 covers ≡ true
unfolding all_below covers
cover_checked = refl

-- What the registers and the memory have to do with the range `ps` of physical addresses.
pub record IsInitial (ps : ℕ) (s : Stage2) : Type 0 where
  pub level : initial_lookup_level s.vtcr_el2 ≡ (lookup_of ps).1
  pub size : t0sz_of s.vtcr_el2 ≡ (lookup_of ps).0
  pub covered :
      2 ^ (64 - t0sz_of s.vtcr_el2)
      ≤ number_of_concatenated_page_tables (t0sz_of s.vtcr_el2) (initial_lookup_level s.vtcr_el2)
        * 2 ^ (12 + 9 * (4 - initial_lookup_level s.vtcr_el2))
  pub empty :
      (i : ℕ)
      → i
        < number_of_concatenated_page_tables (t0sz_of s.vtcr_el2) (initial_lookup_level s.vtcr_el2)
          * 512
      → s.memory (s.vttbr_el2 + i * 8) ≡ 0

module _ (ps : ℕ) (h : ps < 16) where
  level_agrees : initial_lookup_level (vtcr_of ps) ≡ (lookup_of ps).1
  level_agrees =
      let e =
        all_below_lem 16 ps (λ (p : ℕ). initial_lookup_level (vtcr_of p) == (lookup_of p).1)
          level_checked h in
      ground arith

  size_agrees : t0sz_of (vtcr_of ps) ≡ (lookup_of ps).0
  size_agrees =
      let e =
        all_below_lem 16 ps (λ (p : ℕ). t0sz_of (vtcr_of p) == (lookup_of p).0) size_checked h in
      ground arith

  covered : 2 ^ (64 - (lookup_of ps).0) ≤ tables_of ps * 2 ^ (12 + 9 * (4 - (lookup_of ps).1))
  unfolding covers
  covered = leb→le _ _ (all_below_lem 16 ps covers cover_checked h)

  small : u8 (lookup_of ps).0 ≡ (lookup_of ps).0
  small =
      let e =
        all_below_lem 16 ps (λ (p : ℕ). u8 (lookup_of p).0 == (lookup_of p).0) small_checked h in
      ground arith

  tables_agree :
      number_of_concatenated_page_tables (t0sz_of (vtcr_of ps)) (initial_lookup_level (vtcr_of ps))
      ≡ tables_of ps
  tables_agree =
      ap (λ (t : ℕ). number_of_concatenated_page_tables t (initial_lookup_level (vtcr_of ps)))
        (size_agrees ∙ sym small)
      ∙ ap (number_of_concatenated_page_tables (u8 (lookup_of ps).0)) level_agrees

  IsInitial-new :
      (s s' : Stage2)
      → s'.vtcr_el2 ≡ vtcr_of ps
      → s'.memory ≡ init_table s.memory s'.vttbr_el2 (tables_of ps * 512)
      → IsInitial ps s'
  IsInitial-new s s' e cleared = record {
    level = ap initial_lookup_level e ∙ level_agrees;
    size = ap t0sz_of e ∙ size_agrees;
    covered =
        subst
          (λ (v : ℕ).
            2 ^ (64 - t0sz_of v)
            ≤ number_of_concatenated_page_tables (t0sz_of v) (initial_lookup_level v)
              * 2 ^ (12 + 9 * (4 - initial_lookup_level v)))
          (sym e) (rw tables_agree (rw size_agrees (rw level_agrees covered)));
    empty = λ i lt.
        let below : i
            < number_of_concatenated_page_tables (t0sz_of (vtcr_of ps))
                (initial_lookup_level (vtcr_of ps))
              * 512 =
          subst
            (λ (v : ℕ).
              i < number_of_concatenated_page_tables (t0sz_of v) (initial_lookup_level v) * 512)
            e lt in
        let bound = tables_agree in
        let lower : leb s'.vttbr_el2 (s'.vttbr_el2 + i * 8) ≡ true = ground arith in
        let upper : ltb (s'.vttbr_el2 + i * 8) (s'.vttbr_el2 + tables_of ps * 512 * 8) ≡ true =
          ground arith in
        ap (λ (m : ℕ → ℕ). m (s'.vttbr_el2 + i * 8)) cleared ∙ rw lower (rw upper refl);
  }

init_stage2-Yields :
    (s : Stage2)
    → Yields (IsInitial (bit_and s.id_aa64mmfr0_el1 15)) (init_stage2_translation_table s)
unfolding init_stage2_translation_table
init_stage2-Yields s =
    let ps : ℕ = bit_and s.id_aa64mmfr0_el1 15 in
    let h : bit_and s.id_aa64mmfr0_el1 15 < 16 = omega (arith, bit_and_mask 4 s.id_aa64mmfr0_el1) in
    Yields-bind
      (Yields-any (
        allocate_pages (tables_of (bit_and s.id_aa64mmfr0_el1 15))
          (12 + tables_of (bit_and s.id_aa64mmfr0_el1 15) - 1) s.allocator))
      λ allocated _.
        Yields-bind (Yields-any (unwrap allocated))
          λ r _. yields (IsInitial-new (bit_and s.id_aa64mmfr0_el1 15) h s _ refl refl)

-- If init_stage2_translation_table returns, map_address_stage2 will read from VTCR_EL2 the level and
-- the size that were chosen for the range of physical addresses; the tables of that level, as many
-- as both functions compute, cover all addresses of that size; and their descriptors are all 0.
pub init_stage2_translation_table_lem :
    (s s' : Stage2)
    → init_stage2_translation_table s ≡ done s'
    → IsInitial (s.id_aa64mmfr0_el1 % 16) s'
init_stage2_translation_table_lem s s' e =
    subst (λ (ps : ℕ). IsInitial ps s') (bit_and_mask 4 s.id_aa64mmfr0_el1)
      (of_Yields s' (init_stage2-Yields s) e)
