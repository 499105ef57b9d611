-- ===== src/Allocator/Termination.antt =====
-- `allocate` of src/memory_allocator.rs ends: its search, and the step that puts the rest of the
-- entry into the list of its size.
use mini_visor.Base.{
  ℕ, zero, suc, ◌+◌, ◌-◌, ◌^◌, ◌<◌, ◌≡◌, ◌≢◌, ◌∙◌, refl, sym, ap, true, ◌&&◌, inl, inr, arith, ltb,
  leb, ◌==◌, Option, none, some, length, get_or, set, Bool-cases, get_or-set,
}
use mini_visor.Allocator.{
  MemoryEntry, MemoryAllocator, Pool, blank, Result, ok, out_of_fuel, ◌>>=◌, add, sub, entry_at,
  get_size, get_memory_entry, get_next_entry, is_first_entry, pool_size, num_of_free_list,
  size_to_page_order, get_end_address, set_range, unchain_prev, unchain_next, unchain_from_freelist,
}
use mini_visor.Allocator.Ranges.{Gives, gives, stops, Gives-if, of_Gives}
use mini_visor.Allocator.Chains.{
  FreeList, is_none, insert_from, insert_entry, chain_entry_to_free_list,
}
use mini_visor.Allocator.Uses.{
  candidate, find_in_list, find_from, next_first, use_all, keep_range, use_range,
  define_used_exactly, define_used_memory, allocate,
}
use mini_visor.Allocator.Search.{Gives-found}
use mini_visor.Allocator.Ends.{
  AreAcyclic, Ends, returns, fails, panics, Ends-bind, Ends-if, Ends-found, assert-Ends,
  Ends-ne_out_of_fuel, find_from-Ends,
}

module _ (rank : ℕ → ℕ) where
  -- The next entry of a list has a lower rank, and the previous one a higher rank.
  abbrev Falls : Pool → Type 0
  Falls p = (i j : ℕ) → get_memory_entry (entry_at p i).list_next ≡ some j → rank j < rank i

  abbrev Rises : Pool → Type 0
  Rises p = (i j : ℕ) → get_memory_entry (entry_at p i).list_prev ≡ some j → rank i < rank j

  Falls-set :
      (p : Pool) (q : ℕ) (e : MemoryEntry)
      → Falls p
      → ((j : ℕ) → get_memory_entry e.list_next ≡ some j → rank j < rank q)
      → Falls (set p q e)
  Falls-set p q e falls at i j h = elim (Bool-cases (q == i && ltb i (length p))) [
    | inl here ↦
        let same : q ≡ i = ground arith in
        let entry : entry_at (set p q e) i ≡ e = get_or-set p q i e blank ∙ rw here refl in
        let lt = at j (ap (λ (x : MemoryEntry). get_memory_entry x.list_next) (sym entry) ∙ h) in
        omega (arith, ap rank same, lt)
    | inr other ↦
        let entry : entry_at (set p q e) i ≡ entry_at p i =
          get_or-set p q i e blank ∙ rw other refl in
        falls i j (ap (λ (x : MemoryEntry). get_memory_entry x.list_next) (sym entry) ∙ h)
  ]

  Rises-set :
      (p : Pool) (q : ℕ) (e : MemoryEntry)
      → Rises p
      → ((j : ℕ) → get_memory_entry e.list_prev ≡ some j → rank q < rank j)
      → Rises (set p q e)
  Rises-set p q e rises at i j h = elim (Bool-cases (q == i && ltb i (length p))) [
    | inl here ↦
        let same : q ≡ i = ground arith in
        let entry : entry_at (set p q e) i ≡ e = get_or-set p q i e blank ∙ rw here refl in
        let lt = at j (ap (λ (x : MemoryEntry). get_memory_entry x.list_prev) (sym entry) ∙ h) in
        omega (arith, ap rank same, lt)
    | inr other ↦
        let entry : entry_at (set p q e) i ≡ entry_at p i =
          get_or-set p q i e blank ∙ rw other refl in
        rises i j (ap (λ (x : MemoryEntry). get_memory_entry x.list_prev) (sym entry) ∙ h)
  ]

  Option-Falls :
      (o : Option ℕ) (x : Pool) (f : ℕ → Pool)
      → Falls x
      → ((a : ℕ) → o ≡ some a → Falls (f a))
      → Falls (elim o [ none ↦ x | some a ↦ f a ])
  Option-Falls none x f h k = h
  Option-Falls (some a) x f h k = k a refl

  -- Without the entry, its neighbours are linked to each other.
  unchain-Falls : (p : Pool) (i : ℕ) → Falls p → Rises p → Falls (unchain_from_freelist p i)
  unfolding unchain_from_freelist unchain_prev unchain_next
  unchain-Falls p i falls rises =
      let before : Falls (unchain_prev p i) =
        Option-Falls (get_memory_entry (entry_at p i).list_prev) _ _ falls
          λ q e. Falls-set p q _ falls λ j h. omega (arith, falls i j h, rises i q e) in
      let around : Falls (unchain_next (unchain_prev p i) i) =
        Option-Falls (get_memory_entry (entry_at (unchain_prev p i) i).list_next) _ _ before
          λ n e. Falls-set (unchain_prev p i) n _ before λ j h. before n j h in
      Falls-set (unchain_next (unchain_prev p i) i) i _ around λ j h. absurd cc

  insert_from-Ends :
      (fuel : ℕ) (p : Pool) (entry at : ℕ)
      → Falls p
      → rank at < fuel
      → Ends (insert_from fuel p entry at)
  unfolding insert_from
  insert_from-Ends zero p entry at falls lt = absurd (omega arith)
  insert_from-Ends (suc fuel) p entry at falls lt =
      Ends-found (get_memory_entry (entry_at p at).list_next) returns λ n e.
        Ends-if (leb (get_size (entry_at p entry)) (get_size (entry_at p n))) returns
          (insert_from-Ends fuel p entry n falls (omega (arith, falls at n e, lt)))

  module _ (rank_lt : (i : ℕ) → rank i < pool_size) where
    insert_entry-Ends :
        (p : Pool) (free_list : FreeList) (entry : ℕ)
        → Falls p
        → Ends (insert_entry p free_list entry)
    unfolding insert_entry
    insert_entry-Ends p free_list entry falls =
        Ends-bind (assert-Ends (is_none (entry_at p entry).list_next)) λ _.
          Ends-bind (assert-Ends (is_none (entry_at p entry).list_prev)) λ _.
            Ends-found
              (get_memory_entry
                (get_or free_list (size_to_page_order (get_size (entry_at p entry))) none))
              returns
              λ head _.
                Ends-if (leb (get_size (entry_at p entry)) (get_size (entry_at p head))) returns (
                  Ends-bind (insert_from-Ends pool_size p entry head falls (rank_lt head))
                    λ q. returns)

    chain-Ends :
        (p : Pool) (free_list : FreeList) (entry old_size : ℕ)
        → Falls p
        → Rises p
        → Ends (chain_entry_to_free_list p free_list entry (some old_size))
    unfolding chain_entry_to_free_list
    chain-Ends p free_list entry old_size falls rises =
        Ends-if (old_size == get_size (entry_at p entry)) returns (
          insert_entry-Ends (unchain_from_freelist p entry) _ entry
            (unchain-Falls p entry falls rises))

Ends-ok :
    {A B : Type 0} {m : Result A} {f : A → Result B}
    → Ends m
    → ((a : A) → m ≡ ok a → Ends (f a))
    → Ends (m >>= f)
Ends-ok (returns {a}) k = k a refl
Ends-ok fails k = fails
Ends-ok panics k = panics

sum-Ends : (a b : ℕ) → Ends (add a b)
sum-Ends a b = Ends-if (ltb (a + b) (2 ^ 64)) returns panics

difference-Ends : (a b : ℕ) → Ends (sub a b)
difference-Ends a b = Ends-if (leb b a) returns panics

get_end_address-Ends : (address size : ℕ) → Ends (get_end_address address size)
unfolding get_end_address
get_end_address-Ends address size = Ends-bind (sum-Ends address size) λ top. difference-Ends top 1

module _ (s : MemoryAllocator) (acyclic : AreAcyclic s.pool) (i : ℕ) where
  keep_range-Ends : (start end : ℕ) → Ends (keep_range s i start end)
  unfolding keep_range set_range
  keep_range-Ends start end = elim (Bool-cases (ltb start end)) [
    | inl some_bytes ↦
        let e : MemoryEntry = record (entry_at s.pool i) { start = start; end = end } in
        rw some_bytes (
          Ends-bind
            (chain-Ends acyclic.rank acyclic.rank_lt (set s.pool i e) s.free_list i
              (get_size (entry_at s.pool i))
              (Falls-set acyclic.rank s.pool i e acyclic.falls (acyclic.falls i))
              (Rises-set acyclic.rank s.pool i e acyclic.rises (acyclic.rises i)))
            λ r. returns)
    | inr no_bytes ↦ rw no_bytes panics
  ]

  use_all-Ends : Ends (use_all s i)
  unfolding use_all next_first
  use_all-Ends =
      Ends-bind
        (Ends-if (is_first_entry (entry_at s.pool i))
          (Ends-found (get_next_entry s.pool i) fails λ n e. returns) returns)
        λ first. returns

  -- A range at the start of its entry leaves at most one range, so no new entry is made.
  use_range-Ends : (size : ℕ) → Ends (use_range s i (entry_at s.pool i).start size)
  unfolding use_range
  use_range-Ends size =
      let e : MemoryEntry = entry_at s.pool i in
      let same : (e.start == e.start) ≡ true = ground arith in
      rw same (
        Ends-bind (get_end_address-Ends e.start size) λ end.
          Ends-if (e.end == end) use_all-Ends
            (Ends-bind (sum-Ends e.start size) λ above. keep_range-Ends above e.end))

  define_used_exactly-Ends :
      (start size : ℕ)
      → start ≡ (entry_at s.pool i).start
      → Ends (define_used_exactly s start size (some i))
  unfolding define_used_exactly
  define_used_exactly-Ends start size at =
      Ends-if (size == 0) fails (
        Ends-if (ltb s.free_size size) fails
          (Ends-bind (rw at (use_range-Ends size)) λ s'. returns))

-- A range that the search without an alignment finds is at the start of its entry.
abbrev IsAtStart : Pool → Option (ℕ × ℕ) → Type 0
IsAtStart p none = Unit
IsAtStart p (some r) = r.1 ≡ (entry_at p r.0).start

abbrev StartsAt : ℕ → Option ℕ → Type 0
StartsAt start none = Unit
StartsAt start (some a) = a ≡ start

candidate-StartsAt : (e : MemoryEntry) (size : ℕ) → Gives (StartsAt e.start) (candidate e size 0)
unfolding candidate
candidate-StartsAt e size = Gives-if (ltb (get_size e) size) (gives tt) (gives refl)

find_in_list-IsAtStart :
    (fuel : ℕ) (p : Pool) (entry : Option ℕ) (size : ℕ)
    → Gives (IsAtStart p) (find_in_list fuel p entry size 0)
unfolding find_in_list
find_in_list-IsAtStart fuel p none size = gives tt
find_in_list-IsAtStart zero p (some i) size = stops
find_in_list-IsAtStart (suc fuel) p (some i) size =
    Gives-found (StartsAt (entry_at p i).start) (IsAtStart p)
      (candidate-StartsAt (entry_at p i) size)
      (find_in_list-IsAtStart fuel p (get_memory_entry (entry_at p i).list_next) size)
      λ a h. gives h

Option-either :
    {A B : Type 0} (P : B → Type 0) (o : Option A) (x : B) (f : A → B)
    → P x
    → ((a : A) → P (f a))
    → P (elim o [ none ↦ x | some a ↦ f a ])
Option-either P none x f h k = h
Option-either P (some a) x f h k = k a

find_from-IsAtStart :
    (left i : ℕ) (s : MemoryAllocator) (size : ℕ)
    → Gives (IsAtStart s.pool) (find_from left i s size 0)
unfolding find_from
find_from-IsAtStart zero i s size = gives tt
find_from-IsAtStart (suc left) i s size =
    Option-either (Gives (IsAtStart s.pool)) (get_or s.free_list i none) _ _
      (find_from-IsAtStart left (i + 1) s size)
      λ t. Gives-if (leb pool_size t) Gives.fails (
        Gives-found (IsAtStart s.pool) (IsAtStart s.pool)
          (find_in_list-IsAtStart pool_size s.pool (some t) size)
          (find_from-IsAtStart left (i + 1) s size) λ found h. gives h)

-- Where the free lists have no cycle, `allocate` with no alignment asked for (align_order 0) ends:
-- neither the search nor the insertion of what is left of the entry uses up its rounds.
pub allocate-ne_out_of_fuel :
    (s : MemoryAllocator) (size : ℕ) → AreAcyclic s.pool → allocate s size 0 ≢ out_of_fuel
unfolding allocate define_used_memory
allocate-ne_out_of_fuel s size acyclic = Ends-ne_out_of_fuel (
    Ends-if (size == 0) fails (
      Ends-if (leb s.free_size size) fails (
        Ends-ok
          (find_from-Ends (num_of_free_list - size_to_page_order size) (size_to_page_order size) s
            size 0 acyclic)
          λ o found. Ends-found o fails λ r e.
            Ends-bind
              (define_used_exactly-Ends s acyclic r.0 r.1 size (
                of_Gives (some r)
                  (find_from-IsAtStart (num_of_free_list - size_to_page_order size)
                    (size_to_page_order size) s size)
                  (found ∙ ap ok e)))
              λ s'. returns)))
