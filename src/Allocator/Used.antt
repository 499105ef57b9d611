-- ===== src/Allocator/Used.antt =====
-- What `define_used_memory` of src/memory_allocator.rs does to the free memory, for each place of
-- the range in its entry.
use mini_visor.Base.{
  ℕ, ◌+◌, ◌-◌, ◌<◌, ◌≤◌, ◌≡◌, ◌∙◌, refl, true, not, inl, inr, arith, ltb, ◌==◌, none, some, length,
}
use mini_visor.Allocator.{
  MemoryAllocator, Pool, entry_at, get_size, get_next_entry, chain_after_me, pool_size,
}
use mini_visor.Allocator.Uses.{
  next_first, use_all, keep_range, split, use_range, define_used_exactly,
}
use mini_visor.Allocator.Ranges.{
  Core, KeepsRanges, KeepsRanges-refl, KeepsRanges-trans, Gives, gives, fails, Gives-bind, Gives-if,
  Gives-cases, chain_entry_to_free_list-KeepsRanges, Option-both, chain_after_me-KeepsRanges,
}
use mini_visor.Allocator.Entries.{
  CoreAt, CoreAt-KeepsRanges, unchain_entry_from_free_list-KeepsRanges, delete-CoreAt,
  set_range-CoreAt, create_memory_entry-Created,
}
use mini_visor.Allocator.FreeSet.{
  IsFreeIn, IsFreeCore, Outside, Removed, HoldsRange, IsPart, Carves-Removed,
}
use mini_visor.Allocator.Removes.{
  cores, IsPool, CoreAt-Carves, split-Carves, Gives-add, Gives-sub, Gives-end,
}

-- What an operation on the free memory returns: the range is gone from the pool, which is well
-- formed, and the counter has not changed yet.
record Uses (s : MemoryAllocator) (lo hi : ℕ) (s' : MemoryAllocator) : Type 0 where
  is_pool : length s'.pool ≡ length s.pool
  removed : Removed (cores s.pool) lo hi (cores s'.pool)
  same_size : s'.free_size ≡ s.free_size

module _ (s : MemoryAllocator) (i lo hi : ℕ) (is : IsPool s.pool) (h : i < pool_size)
    (holds : HoldsRange (cores s.pool) i lo hi) where
  inside : i < length s.pool
  inside = omega (arith, is.full)

  Uses-CoreAt :
      (c : Core) (s' : MemoryAllocator)
      → CoreAt s.pool i c s'.pool
      → s'.free_size ≡ s.free_size
      → (c.enabled ≡ true → IsPart (cores s.pool) i lo hi c × (c.start ≤ c.end))
      → ((a : ℕ) → IsFreeIn (cores s.pool) a i → Outside lo hi a → IsFreeCore c a)
      → Uses s lo hi s'
  Uses-CoreAt c s' at size small rest = record {
    is_pool = at.same_length;
    removed =
        Carves-Removed (cores s.pool) (cores s'.pool) i lo hi i
          (CoreAt-Carves s.pool s'.pool i lo hi c at small rest) is.disjoint is.proper holds;
    same_size = size;
  }

  keep_range-Uses :
      (start end : ℕ)
      → (start < end
          → IsPart (cores s.pool) i lo hi (record (cores s.pool i) { start = start; end = end }))
      → ((a : ℕ) → IsFreeIn (cores s.pool) a i → Outside lo hi a → (start ≤ a) × (a ≤ end))
      → Gives (Uses s lo hi) (keep_range s i start end)
  unfolding keep_range
  keep_range-Uses start end small rest =
      Gives-bind (set_range-CoreAt s.pool i start end inside) λ q k.
        Gives-bind
          (chain_entry_to_free_list-KeepsRanges q s.free_list i
            (some (get_size (entry_at s.pool i))))
          λ r k'. gives (
            Uses-CoreAt _ _ (CoreAt-KeepsRanges s.pool i _ q r.0 k.0 k') refl
              (λ _. (small k.1, omega (arith, k.1)))
              (λ a f out. (f.0, (rest a f out).0, (rest a f out).1)))

  next_first-Gives : Gives (λ _. Unit {0}) (next_first s i)
  unfolding next_first
  next_first-Gives =
      Gives-if _
        (Option-both (Gives (λ _. Unit {0})) (get_next_entry s.pool i) _ _ fails (λ n. gives tt))
        (gives tt)

  use_all-Uses :
      ((a : ℕ) → IsFreeIn (cores s.pool) a i → Outside lo hi a → ⊥)
      → Gives (Uses s lo hi) (use_all s i)
  unfolding use_all
  use_all-Uses rest = Gives-bind next_first-Gives λ first _. gives (
      Uses-CoreAt _ _
        (delete-CoreAt s.pool _ i inside
          (unchain_entry_from_free_list-KeepsRanges s.pool s.free_list i))
        refl (λ bad. absurd cc) (λ a f out. absurd (rest a f out)))

  linked :
      (p : Pool) (n : ℕ)
      → KeepsRanges p (
          chain_after_me
            (elim (get_next_entry p i) [ some next ↦ chain_after_me p n next | none ↦ p ])
            i
            n)
  linked p n =
      KeepsRanges-trans p _ _
        (Option-both (KeepsRanges p) (get_next_entry p i) _ _ (KeepsRanges-refl p)
          (λ next. chain_after_me-KeepsRanges p n next))
        (chain_after_me-KeepsRanges _ i n)

  split-Uses : (size : ℕ) → lo + size ≡ hi + 1 → Gives (Uses s lo hi) (split s i lo size)
  unfolding split
  split-Uses size e = Gives-bind (create_memory_entry-Created s.pool is.full) λ r new_one.
      Gives-bind (Gives-add lo size) λ above ea.
        Gives-bind
          (set_range-CoreAt r.1 r.0 above (entry_at r.1 i).end
            (omega (arith, new_one.inside, new_one.made.same_length)))
          λ upper up. Gives-bind (Gives-sub lo 1) λ below eb.
            Gives-bind
              (set_range-CoreAt upper i (entry_at upper i).start below
                (omega (arith, is.full, up.0.same_length, new_one.made.same_length)))
              λ lower low.
                Gives-bind
                  (chain_entry_to_free_list-KeepsRanges _ s.free_list i
                    (some (get_size (entry_at r.1 i))))
                  λ q k. Gives-bind (chain_entry_to_free_list-KeepsRanges q.0 q.1 r.0 none) λ q' k'.
                    gives (record {
                      is_pool = omega (
                        arith,
                        k'.same_length,
                        k.same_length,
                        (linked lower r.0).same_length,
                        low.0.same_length,
                        up.0.same_length,
                        new_one.made.same_length,
                      );
                      removed =
                          Carves-Removed (cores s.pool) (cores q'.0) i lo hi r.0
                            (split-Carves s.pool r upper lower q'.0 i lo hi above below holds
                              (omega arith) eb new_one up.0 low.0 up.1 low.1
                              (KeepsRanges-trans lower q.0 q'.0
                                (KeepsRanges-trans lower _ q.0 (linked lower r.0) k) k'))
                            is.disjoint is.proper holds;
                      same_size = refl;
                    })

  -- The steps of `use_range` for each place of the range in the entry.
  use_range-Uses : (size : ℕ) → lo + size ≡ hi + 1 → Gives (Uses s lo hi) (use_range s i lo size)
  unfolding use_range
  use_range-Uses size e =
      Gives-cases ((entry_at s.pool i).start == lo)
        (λ first.
          let eq : (entry_at s.pool i).start ≡ lo = ground arith in
          Gives-bind (Gives-end lo size) λ end ee.
            Gives-cases ((entry_at s.pool i).end == end)
              (λ all.
                let eq' : (entry_at s.pool i).end ≡ end = ground arith in
                use_all-Uses
                  (λ a f out. elim out [ inl b ↦ omega (arith, f.1) | inr b ↦ omega (arith, f.2) ]))
              (λ some_left. Gives-bind (Gives-add lo size) λ above ea.
                keep_range-Uses above (entry_at s.pool i).end
                  (λ lt. (omega (arith, holds.1), omega arith, inr (omega arith)))
                  (λ a f out. elim out [
                    | inl b ↦ absurd (omega (arith, f.1))
                    | inr b ↦ (omega arith, f.2)
                  ])))
        (λ later.
          Gives-cases ((entry_at s.pool i).end == lo)
            (λ last.
              let eq : (entry_at s.pool i).end ≡ lo = ground arith in
              Gives-cases (not (size == 1)) (λ _. fails)
                (λ one. Gives-bind (Gives-sub lo 1) λ below eb.
                  keep_range-Uses (entry_at s.pool i).start below
                    (λ lt. (omega arith, omega (arith, holds.2), inl (omega arith)))
                    (λ a f out. elim out [
                      | inl b ↦ (f.1, omega arith)
                      | inr b ↦ absurd (omega (arith, f.2, holds.3))
                    ])))
            (λ inner. Gives-bind (Gives-end lo size) λ end ee.
              Gives-cases ((entry_at s.pool i).end == end)
                (λ top.
                  let eq : (entry_at s.pool i).end ≡ end = ground arith in
                  Gives-bind (Gives-sub lo 1) λ below eb.
                    keep_range-Uses (entry_at s.pool i).start below
                      (λ lt. (omega arith, omega (arith, holds.2, holds.3), inl (omega arith)))
                      (λ a f out. elim out [
                        | inl b ↦ (f.1, omega arith)
                        | inr b ↦ absurd (omega (arith, f.2))
                      ]))
                (λ _. split-Uses size e)))

-- The memory from `start` on, `size` bytes, is taken out of the pool, and the counter follows.
pub record Takes (s : MemoryAllocator) (start size : ℕ) (s' : MemoryAllocator) : Type 0 where
  pub is_pool : IsPool s'.pool
  pub removed : Removed (cores s.pool) start (start + size - 1) (cores s'.pool)
  pub counted : s'.free_size + size ≡ s.free_size

pub define_used_exactly-Gives :
    (s : MemoryAllocator) (start size i : ℕ)
    → IsPool s.pool
    → i < pool_size
    → HoldsRange (cores s.pool) i start (start + size - 1)
    → Gives (Takes s start size) (define_used_exactly s start size (some i))
unfolding define_used_exactly
define_used_exactly-Gives s start size i is h holds =
    Gives-cases (size == 0) (λ _. fails)
      λ some_size.
        Gives-cases (ltb s.free_size size) (λ _. fails)
          λ enough.
            Gives-bind (use_range-Uses s i start (start + size - 1) is h holds size (ground arith))
              λ s' u. gives (record {
                is_pool = record {
                  full = u.is_pool ∙ is.full;
                  disjoint = u.removed.disjoint;
                  proper = u.removed.proper;
                };
                removed = u.removed;
                counted = ground (arith, u.same_size);
              })
