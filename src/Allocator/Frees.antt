-- ===== src/Allocator/Frees.antt =====
-- Giving memory back: `define_free_memory` and `free` of src/memory_allocator.rs.
-- `define_free_memory` calls itself on what is left of a range that is free in part, so it runs on
-- fuel: one round for each entry that the range overlaps, and one for the rest.
use mini_visor.Base.{
  ℕ, zero, suc, Bool, true, false, ◌&&◌, ◌||◌, not, Option, none, some, set, max, ◌==◌, leb, ltb,
  if◌then◌else◌,
}
use mini_visor.Allocator.{
  MemoryEntry, MemoryAllocator, Pool, Result, ok, err, panic, out_of_fuel, ◌>>=◌, ◌>>◌, assert, add,
  sub, invalid_request, invalid_entry, pool_size, entry_at, get_next_entry, get_prev_entry,
  get_size, is_first_entry, set_range, chain_after_me, delete, create_memory_entry, get_end_address,
}
use mini_visor.Allocator.Chains.{
  FreeList, unchain_entry_from_free_list, chain_entry_to_free_list,
  search_entry_previous_address_mut,
}

-- The links of a new entry that stands below `entry`, which has a next entry.
unfoldable pub link_below : MemoryAllocator → Pool → ℕ → ℕ → Result (Option ℕ × Pool)
link_below s pool entry new_entry = elim (get_prev_entry pool entry) [
  | some prev ↦ (do
    assert (ltb (entry_at pool prev).end (entry_at pool new_entry).start)
    ok (s.first_entry, chain_after_me (chain_after_me pool prev new_entry) new_entry entry))
  | none ↦ ok (some (entry_at pool new_entry).id, chain_after_me pool new_entry entry)
]

-- The links of a new entry between `entry` and `next`.
unfoldable pub link_between : Pool → ℕ → ℕ → ℕ → Pool
link_between pool entry next new_entry =
    let back =
      set pool next
        (record (entry_at pool next) { previous = some (entry_at pool new_entry).id }) in
    let forth =
      set back new_entry
        (record (entry_at back new_entry) { next = some (entry_at back next).id }) in
    chain_after_me forth entry new_entry

-- The links of a new entry beside the last one.
unfoldable pub link_last : MemoryAllocator → Pool → ℕ → ℕ → Result (Option ℕ × Pool)
link_last s pool entry new_entry =
    if ltb (entry_at pool entry).end (entry_at pool new_entry).start
    then ok (s.first_entry, chain_after_me pool entry new_entry)
    else elim (get_prev_entry pool entry) [
      | some prev ↦ (do
        assert (ltb (entry_at pool prev).end (entry_at pool entry).start)
        ok (s.first_entry, chain_after_me (chain_after_me pool prev new_entry) new_entry entry))
      | none ↦ ok (some (entry_at pool new_entry).id, chain_after_me pool new_entry entry)
    ]

-- The end of both branches of `define_free_memory` for a range that an entry has taken up.
unfoldable pub finish_grown : MemoryAllocator → Pool → FreeList → ℕ → ℕ → ℕ → Result MemoryAllocator
finish_grown s pool free_list entry old_size size = do
  free_size ← add s.free_size size
  (pool', free_list') ← chain_entry_to_free_list pool free_list entry (some old_size)
  ok (record s { free_size = free_size; pool = pool'; free_list = free_list' })

-- The end of both branches for a range that is a new entry.
unfoldable pub finish_new :
    MemoryAllocator → Option ℕ → Pool → FreeList → ℕ → ℕ → ℕ → ℕ → Result MemoryAllocator
finish_new s first pool free_list entry new_entry old_size size = do
  free_size ← add s.free_size size
  (pool', free_list') ← chain_entry_to_free_list pool free_list entry (some old_size)
  (pool'', free_list'') ← chain_entry_to_free_list pool' free_list' new_entry none
  ok (record { free_size = free_size; first_entry = first; free_list = free_list''; pool = pool'' })

-- `define_free_memory` where `entry` is the last one; `grown` tells whether it has grown already.
unfoldable pub free_at_last :
    MemoryAllocator → Pool → Bool → ℕ → ℕ → ℕ → ℕ → ℕ → Result MemoryAllocator
unfolding link_last finish_new finish_grown
free_at_last s pool grown entry old_size start end size =
    if grown then finish_grown s pool s.free_list entry old_size size else do
      (new_entry, created) ← create_memory_entry pool
      ranged ← set_range created new_entry start end
      (first, linked) ← link_last s ranged entry new_entry
      finish_new s first linked s.free_list entry new_entry old_size size

-- The next entry grows downwards if the range ends where it starts.
unfoldable pub grow_next : Pool → FreeList → Bool → ℕ → ℕ → ℕ → Result (Bool × Pool × FreeList)
grow_next pool free_list grown next start end = do
  above ← add end 1
  if (entry_at pool next).start == above
      then (do
        ranged ← set_range pool next start (entry_at pool next).end
        (pool', free_list') ←
            chain_entry_to_free_list ranged free_list next (some (get_size (entry_at pool next)))
        ok (true, pool', free_list'))
      else ok (grown, pool, free_list)

-- The entry takes up the next one if the two touch now.
unfoldable pub merge_next : Pool → FreeList → Bool → ℕ → ℕ → ℕ → Result (Pool × FreeList)
merge_next pool free_list grown entry next address_after_entry = do
  above ← add (entry_at pool entry).end 1
  if (entry_at pool next).start == above
        || (grown && leb (entry_at pool next).start address_after_entry)
      then (do
        ranged ←
            set_range pool entry (entry_at pool entry).start
              (max (entry_at pool entry).end (entry_at pool next).end)
        let (pool', free_list') = unchain_entry_from_free_list ranged free_list next
        ok (delete pool' next, free_list'))
      else ok (pool, free_list)

-- `define_free_memory` where `next` follows `entry`; `again` is the call on the rest of a range.
unfoldable pub free_before_next :
    (again : ℕ → ℕ → Result MemoryAllocator)
    → MemoryAllocator
    → Pool
    → Bool
    → ℕ
    → ℕ
    → ℕ
    → ℕ
    → ℕ
    → ℕ
    → ℕ
    → Result MemoryAllocator
unfolding grow_next merge_next link_below link_between finish_grown finish_new
free_before_next again s pool grown entry next address_after_entry old_size start end size =
    if leb (entry_at pool next).start start
    then (do
      assert (not grown)
      if leb end (entry_at pool next).end then err invalid_request else do
        above ← add (entry_at pool next).end 1
        left ← sub end (entry_at pool next).end
        again above left)
    else do
      (grown', pool₁, list₁) ← grow_next pool s.free_list grown next start end
      (pool₂, list₂) ← merge_next pool₁ list₁ grown' entry next address_after_entry
      if grown' then finish_grown s pool₂ list₂ entry old_size size else do
        (new_entry, created) ← create_memory_entry pool₂
        ranged ← set_range created new_entry start end
        (first, linked) ←
            (if ltb (entry_at ranged new_entry).end (entry_at ranged entry).start
              then link_below s ranged entry new_entry
              else ok (s.first_entry, link_between ranged entry next new_entry))
        finish_new s first linked list₂ entry new_entry old_size size

-- The entry grows upwards if the range starts where it ends.
unfoldable pub grow_up : Pool → ℕ → ℕ → ℕ → Result (Bool × Pool)
grow_up pool entry start end = do
  above ← add (entry_at pool entry).end 1
  if above == start
      then (do ranged ← set_range pool entry (entry_at pool entry).start end; ok (true, ranged))
      else ok (false, pool)

-- The first entry grows downwards if the range ends where it starts.
unfoldable pub grow_down : Pool → Bool → ℕ → ℕ → ℕ → Result (Bool × Pool)
grow_down pool grown entry start end =
    if is_first_entry (entry_at pool entry)
    then (do
      above ← add end 1
      if (entry_at pool entry).start == above
          then (do ranged ← set_range pool entry start (entry_at pool entry).end; ok (true, ranged))
          else ok (grown, pool))
    else ok (grown, pool)

-- `define_free_memory` for a range that the entry does not overlap.
unfoldable pub free_beside :
    (again : ℕ → ℕ → Result MemoryAllocator)
    → MemoryAllocator
    → ℕ
    → ℕ
    → ℕ
    → ℕ
    → Result MemoryAllocator
unfolding grow_up grow_down free_before_next free_at_last
free_beside again s entry start end size = do
  let old_size = get_size (entry_at s.pool entry)
  address_after_entry ← add (entry_at s.pool entry).end 1
  (up, pool₁) ← grow_up s.pool entry start end
  (grown, pool₂) ← grow_down pool₁ up entry start end
  elim (get_next_entry pool₂ entry) [
    | some next ↦
        free_before_next again s pool₂ grown entry next address_after_entry old_size start end size
    | none ↦ free_at_last s pool₂ grown entry old_size start end size
  ]

-- The entry that `define_free_memory` starts from.
unfoldable pub entry_below : MemoryAllocator → ℕ → Result ℕ
entry_below s start = do
  previous ← search_entry_previous_address_mut s.pool s.first_entry start
  elim previous [
    | some e ↦ ok e
    | none ↦ elim s.first_entry [
      | none ↦ panic
      | some first ↦ if leb pool_size first then err invalid_entry else ok first
    ]
  ]

unfoldable pub define_free_memory : ℕ → MemoryAllocator → ℕ → ℕ → Result MemoryAllocator
unfolding entry_below free_beside
define_free_memory zero s start size = out_of_fuel
define_free_memory (suc fuel) s start size = if size == 0 then err invalid_request else do
  entry ← entry_below s start
  end ← get_end_address start size
  let e : MemoryEntry = entry_at s.pool entry
  if leb e.start start && leb end e.end
      then err invalid_request
      else if leb start e.end && not (is_first_entry e)
      then (do
        above ← add e.end 1
        rest ← sub end e.end
        left ← add rest 2
        define_free_memory fuel s above left)
      else if e.end == end
      then (do left ← sub size (get_size e); define_free_memory fuel s start left)
      else free_beside (λ above left. define_free_memory fuel s above left) s entry start end size

unfoldable pub free : ℕ → MemoryAllocator → ℕ → ℕ → Result MemoryAllocator
unfolding define_free_memory
free fuel s start size =
    if s.free_size == 0
    then (do
      (first_entry, created) ← create_memory_entry s.pool
      end ← get_end_address start size
      ranged ← set_range created first_entry start end
      (pool, free_list) ← chain_entry_to_free_list ranged s.free_list first_entry none
      ok (record {
        free_size = size;
        first_entry = some (entry_at pool first_entry).id;
        free_list = free_list;
        pool = pool;
      }))
    else (do
      s' ← define_free_memory fuel s start size
      free_size ← add s'.free_size size
      ok (record s' { free_size = free_size }))
