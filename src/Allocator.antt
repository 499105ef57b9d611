-- ===== src/Allocator.antt =====
-- The memory allocator of src/memory_allocator.rs: its state, and the operations on one entry.
-- The pool is a list of 64 entries. A reference to an entry is its index, which is below 64
-- wherever the code makes one, and an error leaves the state as it was, as in the source, where
-- each error is returned before the first write. A word that is added to or taken from is checked.
pub mod Chains
pub mod Uses
pub mod Frees
pub mod Ranges
pub mod Ends
pub mod Entries
pub mod FreeSet
pub mod Removes
pub mod Used
pub mod Align
pub mod Search
pub mod Orders
pub mod Region
pub mod Fresh
pub mod Termination
use mini_visor.Base.{
  ℕ, zero, suc, ◌+◌, ◌-◌, ◌*◌, ◌^◌, Bool, true, false, List, Option, none, some, get_or, set,
  replicate, clear_bits, ◌==◌, leb, ltb, if◌then◌else◌,
}

pub data MemoryError : Type 0 where
  no_entry : MemoryError
  invalid_entry : MemoryError
  no_memory : MemoryError
  invalid_request : MemoryError

pub data Result {ℓ} (A : Type ℓ) : Type ℓ where
  ok : A → Result A
  err : MemoryError → Result A
  panic : Result A
  out_of_fuel : Result A

infixl 5 ◌>>=◌ ◌>>◌
abbrev pub ◌>>=◌ {ℓ κ} : {A : Type ℓ} {B : Type κ} → Result A → (A → Result B) → Result B
ok a >>= f = f a
err e >>= f = err e
panic >>= f = panic
out_of_fuel >>= f = out_of_fuel

abbrev pub ◌>>◌ {ℓ} : {B : Type ℓ} → Result (Unit {0}) → Result B → Result B
m >> k = m >>= λ _. k

abbrev pub assert : Bool → Result (Unit {0})
assert true = ok tt
assert false = panic

-- `a + b` and `a - b` on `usize`.
abbrev pub add : ℕ → ℕ → Result ℕ
add a b = if ltb (a + b) (2 ^ 64) then ok (a + b) else panic

abbrev pub sub : ℕ → ℕ → Result ℕ
sub a b = if leb b a then ok (a - b) else panic

pub record MemoryEntry : Type 0 where
  pub previous : Option ℕ
  pub next : Option ℕ
  pub list_prev : Option ℕ
  pub list_next : Option ℕ
  pub start : ℕ
  pub end : ℕ
  pub enabled : Bool
  pub id : ℕ

abbrev pub blank : MemoryEntry
blank = record {
  previous = none;
  next = none;
  list_prev = none;
  list_next = none;
  start = 0;
  end = 0;
  enabled = false;
  id = 0;
}

abbrev pub Pool : Type 0
Pool = List MemoryEntry

pub record MemoryAllocator : Type 0 where
  pub free_size : ℕ
  pub first_entry : Option ℕ
  pub free_list : List (Option ℕ)
  pub pool : Pool

abbrev pub pool_size : ℕ
pool_size = 64

abbrev pub num_of_free_list : ℕ
num_of_free_list = 12

unfoldable pub new : MemoryAllocator
new = record {
  free_size = 0;
  first_entry = none;
  free_list = replicate num_of_free_list none;
  pool = replicate pool_size blank;
}

-- The entry behind a reference.
abbrev pub entry_at : Pool → ℕ → MemoryEntry
entry_at pool i = get_or pool i blank

-- `index.and_then(|i| get_memory_entry(pool, i).ok())`
abbrev pub get_memory_entry : Option ℕ → Option ℕ
get_memory_entry none = none
get_memory_entry (some i) = if leb pool_size i then none else some i

abbrev pub get_next_entry : Pool → ℕ → Option ℕ
get_next_entry pool i = get_memory_entry (entry_at pool i).next

abbrev pub get_prev_entry : Pool → ℕ → Option ℕ
get_prev_entry pool i = get_memory_entry (entry_at pool i).previous

-- The end is not below the start, since `set_range` asserts so.
abbrev pub get_size : MemoryEntry → ℕ
get_size e = e.end - e.start + 1

abbrev pub is_first_entry : MemoryEntry → Bool
is_first_entry e = elim e.previous [ none ↦ true | some p ↦ false ]

unfoldable pub set_range : Pool → ℕ → ℕ → ℕ → Result Pool
set_range pool i start end = do
  assert (ltb start end)
  ok (set pool i (record (entry_at pool i) { start = start; end = end }))

unfoldable pub chain_after_me : Pool → ℕ → ℕ → Pool
chain_after_me pool me entry =
    let linked = set pool me (record (entry_at pool me) { next = some (entry_at pool entry).id }) in
    set linked entry (record (entry_at linked entry) { previous = some (entry_at linked me).id })

-- The neighbours of an entry in the order of addresses, without it.
unfoldable pub unlink : Pool → ℕ → Pool
unfolding chain_after_me
unlink pool i = elim (get_prev_entry pool i) [
  | some p ↦ elim (get_next_entry pool i) [
    | some n ↦ chain_after_me pool p n
    | none ↦ set pool p (record (entry_at pool p) { next = none })
  ]
  | none ↦ elim (get_next_entry pool i) [
    | some n ↦ set pool n (record (entry_at pool n) { previous = none })
    | none ↦ pool
  ]
]

unfoldable pub delete : Pool → ℕ → Pool
unfolding unlink
delete pool i =
    let around = unlink pool i in
    set around i (record (entry_at around i) { previous = none; next = none; enabled = false })

-- The two writes of `unchain_from_freelist` at the neighbours in the free list.
unfoldable pub unchain_prev : Pool → ℕ → Pool
unchain_prev pool i = elim (get_memory_entry (entry_at pool i).list_prev) [
  | some p ↦ set pool p (record (entry_at pool p) { list_next = (entry_at pool i).list_next })
  | none ↦ pool
]

unfoldable pub unchain_next : Pool → ℕ → Pool
unchain_next pool i = elim (get_memory_entry (entry_at pool i).list_next) [
  | some n ↦ set pool n (record (entry_at pool n) { list_prev = (entry_at pool i).list_prev })
  | none ↦ pool
]

unfoldable pub unchain_from_freelist : Pool → ℕ → Pool
unfolding unchain_prev unchain_next
unchain_from_freelist pool i =
    let around = unchain_next (unchain_prev pool i) i in
    set around i (record (entry_at around i) { list_next = none; list_prev = none })

-- The loop of `create_memory_entry`, with `left` entries to look at from `i` on: the index of the
-- first entry that is not enabled.
unfoldable pub create_from : ℕ → ℕ → Pool → Result (ℕ × Pool)
create_from zero i pool = err no_entry
create_from (suc left) i pool =
    let rest = create_from left (i + 1) pool in
    if (entry_at pool i).enabled
    then rest
    else ok (i, set pool i (record blank { id = i; enabled = true }))

unfoldable pub create_memory_entry : Pool → Result (ℕ × Pool)
unfolding create_from
create_memory_entry pool = create_from pool_size 0 pool

-- `address + size - 1`
unfoldable pub get_end_address : ℕ → ℕ → Result ℕ
get_end_address address size = do top ← add address size; sub top 1

-- The loop of `size_to_page_order`, with `left` orders to go.
unfoldable pub page_order_from : ℕ → ℕ → ℕ → ℕ
page_order_from zero order size = order
page_order_from (suc left) order size =
    let rest = page_order_from left (order + 1) size in
    if ltb (2 ^ (order + 12)) size then rest else order

unfoldable pub size_to_page_order : ℕ → ℕ
unfolding page_order_from
size_to_page_order size = page_order_from 11 0 size

-- `x & !((1 << align_order) - 1)`
abbrev pub align_down : ℕ → ℕ → ℕ
align_down x align_order = clear_bits 64 x (2 ^ align_order - 1)

unfoldable pub align_address_and_size : ℕ → ℕ → ℕ → Result (ℕ × ℕ)
align_address_and_size address size align_order = do
  assert (ltb align_order 64)
  let aligned_address = align_down address align_order
  grown ← add size (address - aligned_address)
  last ← sub grown 1
  aligned_size ← add (align_down last align_order) (2 ^ align_order)
  ok (aligned_address, aligned_size)

unfoldable pub align_address_and_available_size : ℕ → ℕ → ℕ → Result (ℕ × ℕ)
align_address_and_available_size start size align_order = if start == 0 then ok (0, size) else do
  assert (ltb align_order 64)
  aligned_address ← add (align_down (start - 1) align_order) (2 ^ align_order)
  if ltb (aligned_address - start) size
      then ok (aligned_address, size - (aligned_address - start))
      else ok (aligned_address, 0)
