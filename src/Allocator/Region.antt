-- ===== src/Allocator/Region.antt =====
-- The state of the allocator of src/memory_allocator.rs with one free region.
use mathlib.Core.Path.{subst}
use mini_visor.Base.{
  ℕ, zero, suc, ◌+◌, ◌-◌, ◌^◌, ◌<◌, ◌≤◌, ◌≡◌, ◌≢◌, ◌∙◌, refl, sym, ap, true, false, inl, inr, arith,
  ◌==◌, Option, none, some, get_or, set, replicate, Bool-cases, get_or-set,
}
use mini_visor.Allocator.{
  MemoryEntry, MemoryAllocator, blank, entry_at, get_memory_entry, pool_size, num_of_free_list,
  size_to_page_order,
}
use mini_visor.Allocator.Chains.{FreeList}
use mini_visor.Allocator.Removes.{IsPool}
use mini_visor.Allocator.Search.{AreListed}
use mini_visor.Allocator.Ends.{AreAcyclic}
use mini_visor.Allocator.Orders.{size_to_page_order_lem}
use mini_visor.Base.{get_or-replicate}

abbrev pub no_lists : FreeList
no_lists = replicate num_of_free_list none

abbrev pub region_entry : ℕ → ℕ → MemoryEntry
region_entry start size = record blank { start = start; end = start + size - 1; enabled = true }

-- The state with the region as its only free memory.
abbrev pub region : ℕ → ℕ → MemoryAllocator
region start size = record {
  free_size = size;
  first_entry = some 0;
  free_list = set no_lists (size_to_page_order size) (some 0);
  pool = set (replicate pool_size blank) 0 (region_entry start size);
}

-- The heads of the free lists.
pub head-same : (o : ℕ) → o < 12 → get_or (set no_lists o (some 0)) o none ≡ some 0
head-same o h = get_or-set no_lists o o (some 0) none ∙ ground arith

pub head-other : (o i : ℕ) → o ≢ i → get_or (set no_lists o (some 0)) i none ≡ none
head-other o i ne =
    get_or-set no_lists o i (some 0) none
    ∙ ground (arith, get_or-replicate {A = Option ℕ} num_of_free_list i none)

module _ (start size : ℕ) where
  others-blank : (i : ℕ) → i ≢ 0 → entry_at (region start size).pool i ≡ blank
  others-blank zero ne = absurd (ne refl)
  others-blank (suc i) ne = get_or-replicate 63 i blank

  enabled-first : (i : ℕ) → (entry_at (region start size).pool i).enabled ≡ true → i ≡ 0
  enabled-first i on = elim (Bool-cases (i == 0)) [
    | inl same ↦ ground arith
    | inr other ↦
        let bad : true ≡ false =
          sym on ∙ ap (λ (e : MemoryEntry). e.enabled) (others-blank i (ground arith)) in
        cc
  ]

  -- The allocator with one region is well formed.
  pub region-IsPool : 0 < size → start + size < 2 ^ 64 → IsPool (region start size).pool
  region-IsPool pos fits = record {
    full = refl;
    disjoint = λ i j oi oj ne. absurd (ne (enabled-first i oi ∙ sym (enabled-first j oj)));
    proper = λ i on.
        let at : i ≡ 0 = enabled-first i on in
        subst
          (λ (k : ℕ).
            ((entry_at (region start size).pool k).start
              ≤ (entry_at (region start size).pool k).end)
            × ((entry_at (region start size).pool k).end < 2 ^ 64)
            × ((entry_at (region start size).pool k).end + 1
                < 2 ^ 64 + (entry_at (region start size).pool k).start))
          (sym at) (omega arith, omega arith, omega arith);
  }

  pub region-AreListed : AreListed (region start size).pool (region start size).free_list
  region-AreListed = record {
    heads = λ order i e.
        let first : i ≡ 0 = elim (Bool-cases (size_to_page_order size == order)) [
          | inl same ↦
              let at : size_to_page_order size ≡ order = ground arith in
              let head : get_or (region start size).free_list order none ≡ some 0 =
                subst (λ (o : ℕ). get_or (region start size).free_list o none ≡ some 0) at
                  (head-same (size_to_page_order size) (size_to_page_order_lem size).0) in
              cc
          | inr other ↦
              let head : get_or (region start size).free_list order none ≡ none =
                head-other (size_to_page_order size) order (ground arith) in
              cc
        ] in
        subst (λ (k : ℕ). (entry_at (region start size).pool k).enabled ≡ true) (sym first) refl;
    nexts = λ i j on e.
        let bad : none ≡ some j =
          subst
            (λ (k : ℕ). get_memory_entry (entry_at (region start size).pool k).list_next ≡ some j)
            (enabled-first i on) e in
        cc;
  }

  no_links :
      (i : ℕ)
      → ((entry_at (region start size).pool i).list_next ≡ none)
        × ((entry_at (region start size).pool i).list_prev ≡ none)
  no_links zero = (refl, refl)
  no_links (suc i) =
      let e = others-blank (suc i) (λ same. absurd cc) in
      (ap (λ (x : MemoryEntry). x.list_next) e, ap (λ (x : MemoryEntry). x.list_prev) e)

  -- Its one list has one entry.
  pub region-AreAcyclic : AreAcyclic (region start size).pool
  region-AreAcyclic = record {
    rank = λ i. 0;
    rank_lt = λ i. omega arith;
    falls = λ i j e. let bad : none ≡ some j = sym (ap get_memory_entry (no_links i).0) ∙ e in cc;
    rises = λ i j e. let bad : none ≡ some j = sym (ap get_memory_entry (no_links i).1) ∙ e in cc;
  }
