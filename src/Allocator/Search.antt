-- ===== src/Allocator/Search.antt =====
-- What `allocate` of src/memory_allocator.rs finds in the free lists.
use native.Mathlib.Nat.{mod-one}
use mini_visor.Base.{
  ℕ, zero, suc, ◌+◌, ◌-◌, ◌%◌, ◌^◌, ◌<◌, ◌≤◌, ◌≡◌, ◌≢◌, ◌∙◌, refl, sym, ap, true, false, inl, inr,
  arith, ltb, leb, ◌==◌, [], ◌∷◌, Option, none, some, length, get_or, Bool-cases, ltb→lt,
}
use mini_visor.Allocator.Ranges.{
  Gives, gives, fails, stops, panics, Gives-bind, Gives-if, Gives-cases,
}
use mini_visor.Allocator.Align.{align_address_and_available_size-Gives}
use mini_visor.Allocator.Removes.{cores, IsPool}
use mini_visor.Allocator.FreeSet.{AreProper, HoldsRange, IsFree}
use mini_visor.Allocator.Used.{Takes, define_used_exactly-Gives}
use mini_visor.Allocator.Chains.{FreeList}
use mini_visor.Allocator.Ends.{AreAcyclic, find_from-ne_out_of_fuel}
use mini_visor.Allocator.Uses.{candidate, find_in_list, find_from, allocate, define_used_memory}
use mini_visor.Allocator.{
  MemoryEntry, MemoryAllocator, Pool, blank, Result, out_of_fuel, ◌>>=◌, entry_at, get_size,
  get_memory_entry, pool_size, size_to_page_order, num_of_free_list,
}

-- A reference that the free lists hold is to an enabled entry of the pool.
pub record AreListed (p : Pool) (free_list : FreeList) : Type 0 where
  pub heads : (order i : ℕ) → get_or free_list order none ≡ some i → (entry_at p i).enabled ≡ true
  pub nexts :
      (i j : ℕ)
      → (entry_at p i).enabled ≡ true
      → get_memory_entry (entry_at p i).list_next ≡ some j
      → (entry_at p j).enabled ≡ true

-- The range is in the entry, and aligned.
abbrev pub Serves : Pool → ℕ → ℕ → ℕ × ℕ → Type 0
Serves p size k r = HoldsRange (cores p) r.0 r.1 (r.1 + size - 1) × (r.1 % 2 ^ k ≡ 0)

abbrev pub MayServe : Pool → ℕ → ℕ → Option (ℕ × ℕ) → Type 0
MayServe p size k none = Unit
MayServe p size k (some r) = Serves p size k r

abbrev pub MayStart : Pool → ℕ → ℕ → ℕ → Option ℕ → Type 0
MayStart p size k i none = Unit
MayStart p size k i (some a) = Serves p size k (i, a)

candidate-Gives :
    (p : Pool) (i size k : ℕ)
    → AreProper (cores p)
    → (entry_at p i).enabled ≡ true
    → 0 < size
    → Gives (MayStart p size k i) (candidate (entry_at p i) size k)
unfolding candidate
candidate-Gives p i size k proper on pos =
    Gives-cases (ltb (get_size (entry_at p i)) size) (λ _. gives tt)
      λ large.
        let in_entry = proper i on in
        Gives-cases (k == 0)
          (λ unaligned.
            let e : k ≡ 0 = ground arith in
            gives (
              (on, omega arith, ground arith, omega arith),
              ap (λ (o : ℕ). (entry_at p i).start % 2 ^ o) e ∙ mod-one (entry_at p i).start,
            ))
          λ aligned.
            Gives-bind
              (align_address_and_available_size-Gives (entry_at p i).start (get_size (entry_at p i))
                k (omega arith))
              λ r h. elim (Bool-cases (ltb r.1 size)) [
                | inl short ↦ rw short (gives tt)
                | inr long ↦ rw long (gives ((on, h.1, ground arith, omega arith), h.0))
              ]

module _ {A B : Type 0} (M : Option A → Type 0) (P : B → Type 0) {f : A → Result B} where
  pub Gives-found :
      {m : Result (Option A)} {x : Result B}
      → Gives M m
      → Gives P x
      → ((a : A) → M (some a) → Gives P (f a))
      → Gives P (m >>= λ o. elim o [ none ↦ x | some a ↦ f a ])
  Gives-found (gives {a = none} h) k l = k
  Gives-found (gives {a = some a} h) k l = l a h
  Gives-found fails k l = fails
  Gives-found panics k l = panics
  Gives-found stops k l = stops

find_in_list-Gives :
    (fuel : ℕ) (p : Pool) (free_list : FreeList) (entry : Option ℕ) (size k : ℕ)
    → AreProper (cores p)
    → AreListed p free_list
    → ((i : ℕ) → entry ≡ some i → (entry_at p i).enabled ≡ true)
    → 0 < size
    → Gives (MayServe p size k) (find_in_list fuel p entry size k)
unfolding find_in_list
find_in_list-Gives fuel p free_list none size k proper listed on pos = gives tt
find_in_list-Gives zero p free_list (some i) size k proper listed on pos = stops
find_in_list-Gives (suc fuel) p free_list (some i) size k proper listed on pos =
    Gives-found (MayStart p size k i) (MayServe p size k)
      (candidate-Gives p i size k proper (on i refl) pos)
      (find_in_list-Gives fuel p free_list (get_memory_entry (entry_at p i).list_next) size k proper
        listed (λ j e. listed.nexts i j (on i refl) e) pos)
      λ a h. gives h

Option-with :
    {A B : Type 0} (P : B → Type 0) (o : Option A) (x : B) (f : A → B)
    → P x
    → ((a : A) → o ≡ some a → P (f a))
    → P (elim o [ none ↦ x | some a ↦ f a ])
Option-with P none x f h k = h
Option-with P (some a) x f h k = k a refl

find_from-Gives :
    (left i : ℕ) (s : MemoryAllocator) (size k : ℕ)
    → AreProper (cores s.pool)
    → AreListed s.pool s.free_list
    → 0 < size
    → Gives (MayServe s.pool size k) (find_from left i s size k)
unfolding find_from
find_from-Gives zero i s size k proper listed pos = gives tt
find_from-Gives (suc left) i s size k proper listed pos =
    Option-with (Gives (MayServe s.pool size k)) (get_or s.free_list i none) _ _
      (find_from-Gives left (i + 1) s size k proper listed pos)
      λ t head. Gives-if (leb pool_size t) fails (
        Gives-found (MayServe s.pool size k) (MayServe s.pool size k)
          (find_in_list-Gives pool_size s.pool s.free_list (some t) size k proper listed
            (λ j e. listed.heads i j (head ∙ e)) pos)
          (find_from-Gives left (i + 1) s size k proper listed pos) λ found h. gives h)

get_or-past : (p : Pool) (i : ℕ) → length p ≤ i → entry_at p i ≡ blank
get_or-past [] i le = refl
get_or-past (e ∷ es) zero le = absurd (omega (arith, le))
get_or-past (e ∷ es) (suc i) le = get_or-past es i (omega arith)

-- An entry that is enabled is one of the 64.
inside-pool :
    (p : Pool) (i : ℕ) → length p ≡ pool_size → (entry_at p i).enabled ≡ true → i < pool_size
inside-pool p i full on = elim (Bool-cases (ltb i 64)) [
  | inl lt ↦ ltb→lt i 64 lt
  | inr ge ↦
      let bad : true ≡ false =
        sym on ∙ ap (λ (e : MemoryEntry). e.enabled) (get_or-past p i (ground arith)) in
      cc
]

-- The block of `allocate` and the state after it.
pub record Allocates (s : MemoryAllocator) (size k : ℕ) (r : ℕ × MemoryAllocator) : Type 0 where
  pub aligned : r.0 % 2 ^ k ≡ 0
  pub entire : (a : ℕ) → r.0 ≤ a → a < r.0 + size → IsFree (cores s.pool) a
  pub takes : Takes s r.0 size r.1

allocate-Gives :
    (s : MemoryAllocator) (size k : ℕ)
    → IsPool s.pool
    → AreListed s.pool s.free_list
    → Gives (Allocates s size k) (allocate s size k)
unfolding allocate define_used_memory
allocate-Gives s size k is listed =
    Gives-cases (size == 0) (λ _. fails)
      λ some_size. Gives-if (leb s.free_size size) fails (
        Gives-found (MayServe s.pool size k) (Allocates s size k)
          (find_from-Gives (num_of_free_list - size_to_page_order size) (size_to_page_order size) s
            size k is.proper listed (ground arith))
          fails
          λ found h.
            Gives-bind
              (define_used_exactly-Gives s found.1 size found.0 is
                (inside-pool s.pool found.0 is.full h.0.0) h.0)
              λ s' t. gives (record {
                aligned = h.1;
                entire = λ a lo hi. (found.0, (h.0.0, omega (arith, h.0.1), omega (arith, h.0.2)));
                takes = t;
              }))

-- If the enabled entries of the pool are disjoint ranges of words, none of them the whole address
-- space, and the free lists refer to enabled entries only and have no cycle, the search of
-- `allocate` ends within its rounds. If `allocate` returns an address, it is a multiple of the
-- alignment, the block's bytes were all free before, the free memory is then what it was without
-- exactly that block, the pool is well formed again, and free_size is less by the size. It may also
-- return an error or panic, and the insertion of what is left of the entry into the lists may use
-- up its rounds.
pub allocate_lem :
    (s : MemoryAllocator) (size k : ℕ)
    → IsPool s.pool
    → AreListed s.pool s.free_list
    → AreAcyclic s.pool
    → Gives (Allocates s size k) (allocate s size k)
      × (find_from (num_of_free_list - size_to_page_order size) (size_to_page_order size) s size k
          ≢ out_of_fuel)
allocate_lem s size k is listed acyclic = (
  allocate-Gives s size k is listed,
  find_from-ne_out_of_fuel (num_of_free_list - size_to_page_order size) (size_to_page_order size) s
      size k acyclic,
)
