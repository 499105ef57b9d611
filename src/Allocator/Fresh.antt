-- ===== src/Allocator/Fresh.antt =====
-- The allocator of src/memory_allocator.rs with one free region, as the boot code leaves it.
use mathlib.Core.Path.{subst}
use mini_visor.Base.{
  ℕ, zero, suc, ◌+◌, ◌-◌, ◌^◌, ◌<◌, ◌≤◌, ◌≡◌, ◌∙◌, refl, ap, true, false, inl, inr, arith, ltb, leb,
  ◌==◌, Option, none, some, get_or, set, replicate, Bool-cases,
}
use mini_visor.Allocator.{
  MemoryAllocator, Pool, blank, Result, ok, ◌>>=◌, add, entry_at, pool_size, num_of_free_list, new,
  size_to_page_order, set_range, create_memory_entry, create_from, get_end_address,
  unchain_from_freelist, unchain_prev, unchain_next,
}
use mini_visor.Allocator.Chains.{chain_entry_to_free_list, insert_entry, drop_head}
use mini_visor.Allocator.Uses.{
  candidate, find_in_list, find_from, allocate, define_used_memory, define_used_exactly, use_range,
  keep_range,
}
use mini_visor.Allocator.Frees.{free}
use mini_visor.Allocator.Orders.{size_to_page_order_lem, size_to_page_order_mono}
use mini_visor.Base.{set-set, set-replicate, get_or-replicate}
use mini_visor.Allocator.Region.{no_lists, region_entry, region, head-same, head-other}

add_fits : (a b : ℕ) → a + b < 2 ^ 64 → add a b ≡ ok (a + b)
add_fits a b h = let e : ltb (a + b) (2 ^ 64) ≡ true = ground arith in rw e refl

end_fits : (a size : ℕ) → a + size < 2 ^ 64 → 0 < size → get_end_address a size ≡ ok (a + size - 1)
unfolding get_end_address
end_fits a size h pos =
    let e : leb 1 (a + size) ≡ true = ground arith in rw (add_fits a size h) (rw e refl)

range_fits :
    (pool : Pool) (i start end : ℕ)
    → start < end
    → set_range pool i start end
      ≡ ok (set pool i (record (entry_at pool i) { start = start; end = end }))
unfolding set_range
range_fits pool i start end h = let e : ltb start end ≡ true = ground arith in rw e refl

module _ (start size : ℕ) where
  -- What `free` makes of an allocator that has no memory yet.
  free-new :
      (fuel : ℕ)
      → 1 < size
      → start + size < 2 ^ 64
      → free fuel new start size ≡ ok (region start size)
  unfolding free create_memory_entry create_from get_end_address set_range chain_entry_to_free_list
      insert_entry new
  free-new fuel some_size fits =
      rw (end_fits start size (omega arith) (omega arith), free)
        (rw (range_fits _ 0 start (start + size - 1) (omega arith)) (
          let sz : start + size - 1 - start + 1 ≡ size = omega arith in
          let head : get_or new.free_list (size_to_page_order (start + size - 1 - start + 1)) none
              ≡ none =
            get_or-replicate {A = Option ℕ} num_of_free_list _ none in
          rw head (
            ap
              (λ (n : ℕ). ok (record (region start size) {
                free_list = set no_lists (size_to_page_order n) (some 0);
              }))
              sz)))

  find_from-region :
      (left i want : ℕ)
      → want ≤ size
      → 0 < size
      → i ≤ size_to_page_order size
      → size_to_page_order size < i + left
      → find_from left i (region start size) want 0 ≡ ok (some (0, start))
  unfolding find_from find_in_list candidate
  find_from-region zero i want le pos lower upper = absurd (omega arith)
  find_from-region (suc left) i want le pos lower upper =
      elim (Bool-cases (size_to_page_order size == i)) [
        | inl same ↦
            let at : size_to_page_order size ≡ i = ground arith in
            let head : get_or (region start size).free_list i none ≡ some 0 =
              subst (λ (o : ℕ). get_or (region start size).free_list o none ≡ some 0) at
                (head-same (size_to_page_order size) (size_to_page_order_lem size).0) in
            let room : ltb (start + size - 1 - start + 1) want ≡ false = ground arith in
            rw (head, find_from) (rw room refl)
        | inr other ↦
            let head : get_or (region start size).free_list i none ≡ none =
              head-other (size_to_page_order size) i (ground arith) in
            rw (head, find_from)
              (find_from-region left (i + 1) want le pos (ground arith) (omega arith))
      ]

  -- The region's entry is the head of its list, which is empty without it.
  dropped :
      (pool : Pool)
      → (entry_at pool 0).id ≡ 0
      → (entry_at pool 0).list_next ≡ none
      → 0 < size
      → drop_head pool
          (region start size).free_list
          (size_to_page_order (start + size - 1 - start + 1))
          0
        ≡ no_lists
  unfolding drop_head
  dropped pool id next pos =
      subst
        (λ (n : ℕ).
          drop_head pool (region start size).free_list (size_to_page_order n) 0 ≡ no_lists)
        same
        (rw (head, drop_head)
          (rw (id) (
            rw next (
              set-set no_lists (size_to_page_order size) (some 0) none
              ∙ set-replicate {A = Option ℕ} num_of_free_list (size_to_page_order size) none))))
    where
      same : size ≡ start + size - 1 - start + 1
      same = omega arith

      head : get_or (region start size).free_list (size_to_page_order size) none ≡ some 0
      head = head-same (size_to_page_order size) (size_to_page_order_lem size).0

  -- The entry of the region keeps what is above the block.
  keep_range-region :
      (want : ℕ)
      → 0 < want
      → want + 1 < size
      → keep_range (region start size) 0 (start + want) (start + size - 1)
        ≡ ok (record (region (start + want) (size - want)) { free_size = size })
  unfolding keep_range chain_entry_to_free_list unchain_from_freelist unchain_prev unchain_next
  keep_range-region want pos room =
      let differ : (start + size - 1 - start + 1 == start + size - 1 - (start + want) + 1) ≡ false =
        ground arith in
      let empty : get_or no_lists (size_to_page_order (start + size - 1 - (start + want) + 1)) none
          ≡ none =
        get_or-replicate {A = Option ℕ} num_of_free_list _ none in
      let after : MemoryAllocator = record (region (start + want) (size - want)) {
        free_size = size;
      } in
      let last : start + size - 1 ≡ start + want + (size - want) - 1 = omega arith in
      let sz : start + size - 1 - (start + want) + 1 ≡ size - want = omega arith in
      rw (range_fits _ 0 (start + want) (start + size - 1) (omega arith), keep_range)
        (rw differ (
          rw (dropped _ refl refl (omega arith)) (
            rw empty (
              rw (dropped _ refl refl (omega arith)) (
                ap
                  (λ (n : ℕ). ok (record after {
                    free_list = set no_lists (size_to_page_order n) (some 0);
                    pool =
                        set (replicate pool_size blank) 0
                          (record (region_entry start size) { start = start + want });
                  }))
                  sz
                ∙ ap
                    (λ (n : ℕ). ok (record after {
                      pool =
                          set (replicate pool_size blank) 0
                            (record (region_entry start size) { start = start + want; end = n });
                    }))
                    last)))))

  pub allocate-region :
      (want : ℕ)
      → 0 < want
      → want + 1 < size
      → start + size < 2 ^ 64
      → allocate (region start size) want 0 ≡ ok (start, region (start + want) (size - want))
  unfolding allocate define_used_memory define_used_exactly use_range
  allocate-region want pos room fits =
      let some_want : (want == 0) ≡ false = ground arith in
      let enough : leb size want ≡ false = ground arith in
      let enough' : ltb size want ≡ false = ground arith in
      let same : (start == start) ≡ true = ground arith in
      let part : (start + size - 1 == start + want - 1) ≡ false = ground arith in
      let lower = size_to_page_order_mono want size (omega arith) in
      let found =
        find_from-region (num_of_free_list - size_to_page_order want) (size_to_page_order want) want
          (omega arith) (omega arith) lower
          (omega (arith, (size_to_page_order_lem size).0, lower)) in
      rw some_want (
        rw enough (
          rw found (
            rw enough' (
              rw same (
                rw (end_fits start want (omega arith) pos) (
                  rw part (
                    rw (add_fits start want (omega arith))
                      (rw (keep_range-region want pos room) (rw some_want refl)))))))))

  -- If `free` gives a region that ends below 2 ^ 64 to a new allocator, `allocate` with no
  -- alignment asked for (align_order 0) of a positive size that leaves at least two bytes of it
  -- succeeds: it returns the start of the region, and the rest is the only free region, in the list
  -- of its size.
  pub allocate-free :
      (fuel want : ℕ)
      → 0 < want
      → want + 1 < size
      → start + size < 2 ^ 64
      → (free fuel new start size >>= λ s. allocate s want 0)
        ≡ ok (start, region (start + want) (size - want))
  allocate-free fuel want pos room fits =
      ap (λ (r : Result MemoryAllocator). r >>= λ s. allocate s want 0)
        (free-new fuel (omega arith) fits)
      ∙ allocate-region want pos room fits
