-- ===== src/Allocator/Ends.antt =====
-- The loops of the search of `allocate` of src/memory_allocator.rs end.
use mini_visor.Base.{
  ℕ, zero, suc, ◌+◌, ◌-◌, ◌^◌, ◌<◌, ◌≡◌, ◌≢◌, refl, Bool, true, false, arith, ltb, leb, ◌==◌,
  Option, none, some, get_or, if◌then◌else◌,
}
use mini_visor.Allocator.{
  MemoryEntry, MemoryError, MemoryAllocator, Pool, Result, ok, err, panic, out_of_fuel, ◌>>=◌,
  entry_at, get_size, get_memory_entry, pool_size, align_address_and_available_size, assert,
  align_down,
}
use mini_visor.Allocator.Uses.{candidate, find_in_list, find_from}

-- The free lists have no cycle: from an entry to the next one of its list the rank falls, and to the
-- previous one it rises.
pub record AreAcyclic (p : Pool) : Type 0 where
  pub rank : ℕ → ℕ
  pub rank_lt : (i : ℕ) → rank i < pool_size
  pub falls : (i j : ℕ) → get_memory_entry (entry_at p i).list_next ≡ some j → rank j < rank i
  pub rises : (i j : ℕ) → get_memory_entry (entry_at p i).list_prev ≡ some j → rank i < rank j

-- The operation has come to an end.
pub data Ends {A : Type 0} : Result A → Type 0 where
  returns : {a : A} → Ends (ok a)
  fails : {e : MemoryError} → Ends (err e)
  panics : Ends panic

pub Ends-ne_out_of_fuel : {A : Type 0} {r : Result A} → Ends r → r ≢ out_of_fuel
Ends-ne_out_of_fuel returns e = cc
Ends-ne_out_of_fuel fails e = cc
Ends-ne_out_of_fuel panics e = cc

pub Ends-bind :
    {A B : Type 0} {m : Result A} {f : A → Result B}
    → Ends m
    → ((a : A) → Ends (f a))
    → Ends (m >>= f)
Ends-bind (returns {a}) k = k a
Ends-bind fails k = fails
Ends-bind panics k = panics

pub Ends-if : {A : Type 0} {x y : Result A} (b : Bool) → Ends x → Ends y → Ends (if b then x else y)
Ends-if true h k = h
Ends-if false h k = k

pub Ends-found :
    {A B : Type 0} {x : Result B} {f : A → Result B} (o : Option A)
    → Ends x
    → ((a : A) → o ≡ some a → Ends (f a))
    → Ends (elim o [ none ↦ x | some a ↦ f a ])
Ends-found none h k = h
Ends-found (some a) h k = k a refl

pub assert-Ends : (b : Bool) → Ends (assert b)
assert-Ends true = returns
assert-Ends false = panics

align_address_and_available_size-Ends :
    (start size k : ℕ) → Ends (align_address_and_available_size start size k)
unfolding align_address_and_available_size
align_address_and_available_size-Ends start size k = Ends-if (start == 0) returns (
    Ends-bind (assert-Ends (ltb k 64)) λ _.
      Ends-bind (Ends-if (ltb (align_down (start - 1) k + 2 ^ k) (2 ^ 64)) returns panics)
        λ a. Ends-if (ltb (a - start) size) returns returns)

candidate-Ends : (e : MemoryEntry) (size k : ℕ) → Ends (candidate e size k)
unfolding candidate
candidate-Ends e size k = Ends-if (ltb (get_size e) size) returns (
    Ends-if (k == 0) returns
      (Ends-bind (align_address_and_available_size-Ends e.start (get_size e) k) λ r. returns))

module _ (p : Pool) (acyclic : AreAcyclic p) (size k : ℕ) where
  find_in_list-Ends :
      (fuel : ℕ) (entry : Option ℕ)
      → ((i : ℕ) → entry ≡ some i → acyclic.rank i < fuel)
      → Ends (find_in_list fuel p entry size k)
  unfolding find_in_list
  find_in_list-Ends fuel none lt = returns
  find_in_list-Ends zero (some i) lt = absurd (omega (arith, lt i refl))
  find_in_list-Ends (suc fuel) (some i) lt = Ends-bind (candidate-Ends (entry_at p i) size k) λ o.
      Ends-found o
        (find_in_list-Ends fuel (get_memory_entry (entry_at p i).list_next)
          (λ j e. omega (arith, acyclic.falls i j e, lt i refl)))
        λ a e. returns

pub find_from-Ends :
    (left i : ℕ) (s : MemoryAllocator) (size k : ℕ)
    → AreAcyclic s.pool
    → Ends (find_from left i s size k)
unfolding find_from
find_from-Ends zero i s size k acyclic = returns
find_from-Ends (suc left) i s size k acyclic =
    Ends-found (get_or s.free_list i none) (find_from-Ends left (i + 1) s size k acyclic) λ t e.
      Ends-if (leb pool_size t) fails (
        Ends-bind
          (find_in_list-Ends s.pool acyclic size k pool_size (some t) (λ j _. acyclic.rank_lt j))
          λ o. Ends-found o (find_from-Ends left (i + 1) s size k acyclic) λ found _. returns)

-- Where the free lists have no cycle, the search through them ends within its rounds.
pub find_from-ne_out_of_fuel :
    (left i : ℕ) (s : MemoryAllocator) (size k : ℕ)
    → AreAcyclic s.pool
    → find_from left i s size k ≢ out_of_fuel
find_from-ne_out_of_fuel left i s size k acyclic e =
    Ends-ne_out_of_fuel (find_from-Ends left i s size k acyclic) e
