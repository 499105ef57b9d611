-- ===== src/Allocator/Uses.antt =====
-- Taking memory out of the free entries: `define_used_memory`, `allocate` and `reserve_memory` of
-- src/memory_allocator.rs. The `target_entry` that is set to `None` is not read again.
use mini_visor.Base.{
  ℕ, zero, suc, ◌+◌, ◌-◌, Option, none, some, get_or, not, ◌==◌, leb, ltb, if◌then◌else◌,
}
use mini_visor.Allocator.{
  MemoryEntry, MemoryAllocator, Pool, Result, ok, err, out_of_fuel, ◌>>=◌, add, sub,
  invalid_request, no_memory, no_entry, invalid_entry, pool_size, num_of_free_list, entry_at,
  get_memory_entry, get_next_entry, get_size, is_first_entry, set_range, chain_after_me, delete,
  create_memory_entry, get_end_address, size_to_page_order, align_address_and_size,
  align_address_and_available_size,
}
use mini_visor.Allocator.Chains.{
  unchain_entry_from_free_list, chain_entry_to_free_list, search_entry_containing_address_mut,
}

-- The first entry without `entry`, which is removed: the next one takes its place.
unfoldable pub next_first : MemoryAllocator → ℕ → Result (Option ℕ)
next_first s entry =
    if is_first_entry (entry_at s.pool entry)
    then elim (get_next_entry s.pool entry) [
      | none ↦ err no_entry
      | some next ↦ ok (some (entry_at s.pool next).id)
    ]
    else ok s.first_entry

-- The whole entry is used.
unfoldable pub use_all : MemoryAllocator → ℕ → Result MemoryAllocator
unfolding next_first
use_all s entry = do
  first ← next_first s entry
  let (pool, free_list) = unchain_entry_from_free_list s.pool s.free_list entry
  ok (record s { first_entry = first; pool = delete pool entry; free_list = free_list })

-- The entry keeps the range from `start` to `end`.
unfoldable pub keep_range : MemoryAllocator → ℕ → ℕ → ℕ → Result MemoryAllocator
keep_range s entry start end = do
  pool ← set_range s.pool entry start end
  (pool', free_list) ←
      chain_entry_to_free_list pool s.free_list entry (some (get_size (entry_at s.pool entry)))
  ok (record s { pool = pool'; free_list = free_list })

-- A new entry takes what is above the range, and the old one keeps what is below.
unfoldable pub split : MemoryAllocator → ℕ → ℕ → ℕ → Result MemoryAllocator
split s entry start size = do
  (new_entry, created) ← create_memory_entry s.pool
  let old_size = get_size (entry_at created entry)
  above ← add start size
  upper ← set_range created new_entry above (entry_at created entry).end
  below ← sub start 1
  lower ← set_range upper entry (entry_at upper entry).start below
  let linked : Pool = elim (get_next_entry lower entry) [
    | some next ↦ chain_after_me lower new_entry next
    | none ↦ lower
  ]
  let chained = chain_after_me linked entry new_entry
  (pool, free_list) ← chain_entry_to_free_list chained s.free_list entry (some old_size)
  (pool', free_list') ← chain_entry_to_free_list pool free_list new_entry none
  ok (record s { pool = pool'; free_list = free_list' })

-- `size` bytes from `start` on, in the entry.
unfoldable pub use_range : MemoryAllocator → ℕ → ℕ → ℕ → Result MemoryAllocator
unfolding use_all keep_range split
use_range s entry start size =
    let e = entry_at s.pool entry in
    if e.start == start
    then (do
      end ← get_end_address start size
      if e.end == end
          then use_all s entry
          else do above ← add start size; keep_range s entry above e.end)
    else if e.end == start
    then (if not (size == 1)
        then err invalid_request
        else (do below ← sub start 1; keep_range s entry e.start below))
    else (do
      end ← get_end_address start size
      if e.end == end
          then (do below ← sub start 1; keep_range s entry e.start below)
          else split s entry start size)

-- `define_used_memory` with an `align_order` of 0.
unfoldable pub define_used_exactly : MemoryAllocator → ℕ → ℕ → Option ℕ → Result MemoryAllocator
unfolding use_range
define_used_exactly s start size target_entry =
    if size == 0 then err invalid_request else if ltb s.free_size size then err no_memory else do
      found ← (elim target_entry [
        | some t ↦ ok (some t)
        | none ↦ search_entry_containing_address_mut s.pool s.first_entry start
      ])
      elim found [
        | none ↦ err invalid_request
        | some entry ↦ (do
          s' ← use_range s entry start size
          ok (record s' { free_size = s'.free_size - size }))
      ]

unfoldable pub define_used_memory : MemoryAllocator → ℕ → ℕ → ℕ → Option ℕ → Result MemoryAllocator
unfolding define_used_exactly
define_used_memory s start size align_order target_entry =
    if align_order == 0
    then define_used_exactly s start size target_entry
    else if size == 0
    then err invalid_request
    else if ltb s.free_size size
    then err no_memory
    else do
      (aligned_start, aligned_size) ← align_address_and_size start size align_order
      define_used_exactly s aligned_start aligned_size target_entry

unfoldable pub reserve_memory : MemoryAllocator → ℕ → ℕ → ℕ → Result MemoryAllocator
unfolding define_used_memory
reserve_memory s start_address size align_order =
    define_used_memory s start_address size align_order none

-- The address in an entry that is large enough, if the alignment leaves enough of it.
unfoldable pub candidate : MemoryEntry → ℕ → ℕ → Result (Option ℕ)
candidate e size align_order =
    if ltb (get_size e) size then ok none else if align_order == 0 then ok (some e.start) else do
      (aligned_address, available) ←
          align_address_and_available_size e.start (get_size e) align_order
      ok (if ltb available size then none else some aligned_address)

-- The `while` of `allocate` along one free list: the first entry that serves, with the address.
unfoldable pub find_in_list : ℕ → Pool → Option ℕ → ℕ → ℕ → Result (Option (ℕ × ℕ))
unfolding candidate
find_in_list fuel pool none size align_order = ok none
find_in_list zero pool (some entry) size align_order = out_of_fuel
find_in_list (suc fuel) pool (some entry) size align_order = do
  address ← candidate (entry_at pool entry) size align_order
  elim address [
    | some a ↦ ok (some (entry, a))
    | none ↦
        find_in_list fuel pool (get_memory_entry (entry_at pool entry).list_next) size align_order
  ]

-- The `for` of `allocate` over the free lists, at list `i` with `left` lists to go.
unfoldable pub find_from : ℕ → ℕ → MemoryAllocator → ℕ → ℕ → Result (Option (ℕ × ℕ))
unfolding find_in_list
find_from zero i s size align_order = ok none
find_from (suc left) i s size align_order = elim (get_or s.free_list i none) [
  | none ↦ find_from left (i + 1) s size align_order
  | some t ↦ if leb pool_size t then err invalid_entry else do
    answer ← find_in_list pool_size s.pool (some t) size align_order
    elim answer [ some found ↦ ok (some found) | none ↦ find_from left (i + 1) s size align_order ]
]

unfoldable pub allocate : MemoryAllocator → ℕ → ℕ → Result (ℕ × MemoryAllocator)
unfolding find_from define_used_memory
allocate s size align_order =
    if size == 0 then err invalid_request else if leb s.free_size size then err no_memory else do
      let page_order = size_to_page_order size
      answer ← find_from (num_of_free_list - page_order) page_order s size align_order
      elim answer [
        | none ↦ err no_memory
        | some found ↦ (do
          s' ← define_used_memory s found.1 size 0 (some found.0)
          ok (found.1, s'))
      ]
