-- ===== src/Allocator/Chains.antt =====
-- The free lists of src/memory_allocator.rs, and the searches in the list by addresses.
use mini_visor.Base.{
  ℕ, zero, suc, Bool, true, false, ◌&&◌, List, Option, none, some, get_or, set, ◌==◌, leb, ltb,
  if◌then◌else◌,
}
use mini_visor.Allocator.{
  Pool, MemoryEntry, Result, ok, out_of_fuel, ◌>>=◌, ◌>>◌, assert, pool_size, entry_at,
  get_memory_entry, get_next_entry, get_prev_entry, get_size, unchain_from_freelist,
  size_to_page_order,
}

-- `x == Some(id)`
abbrev pub is_id : Option ℕ → ℕ → Bool
is_id none id = false
is_id (some i) id = i == id

abbrev pub is_none : Option ℕ → Bool
is_none none = true
is_none (some i) = false

abbrev pub FreeList : Type 0
FreeList = List (Option ℕ)

-- `if free_list[order] == Some(entry.id) { free_list[order] = entry.list_next; }`
unfoldable pub drop_head : Pool → FreeList → ℕ → ℕ → FreeList
drop_head pool free_list order entry =
    if is_id (get_or free_list order none) (entry_at pool entry).id
    then set free_list order (entry_at pool entry).list_next
    else free_list

unfoldable pub unchain_entry_from_free_list : Pool → FreeList → ℕ → Pool × FreeList
unfolding drop_head unchain_from_freelist
unchain_entry_from_free_list pool free_list entry = (
  unchain_from_freelist pool entry,
  drop_head pool free_list (size_to_page_order (get_size (entry_at pool entry))) entry,
)

-- `entry` behind `list_entry`, which is the last of its list.
unfoldable pub append_after : Pool → ℕ → ℕ → Pool
append_after pool entry list_entry =
    let linked =
      set pool list_entry
        (record (entry_at pool list_entry) { list_next = some (entry_at pool entry).id }) in
    set linked entry
      (record (entry_at linked entry) { list_prev = some (entry_at linked list_entry).id })

-- `entry` between `list_entry` and `next_entry`.
unfoldable pub insert_between : Pool → ℕ → ℕ → ℕ → Pool
unfolding append_after
insert_between pool entry list_entry next_entry =
    let behind = append_after pool entry list_entry in
    let linked =
      set behind entry
        (record (entry_at behind entry) { list_next = some (entry_at behind next_entry).id }) in
    set linked next_entry
      (record (entry_at linked next_entry) { list_prev = some (entry_at linked entry).id })

-- The `loop` of `chain_entry_to_free_list`.
unfoldable pub insert_from : ℕ → Pool → ℕ → ℕ → Result Pool
unfolding append_after insert_between
insert_from zero pool entry list_entry = out_of_fuel
insert_from (suc fuel) pool entry list_entry =
    elim (get_memory_entry (entry_at pool list_entry).list_next) [
      | none ↦ ok (append_after pool entry list_entry)
      | some next_entry ↦
          let rest = insert_from fuel pool entry next_entry in
          if leb (get_size (entry_at pool entry)) (get_size (entry_at pool next_entry))
          then ok (insert_between pool entry list_entry next_entry)
          else rest
    ]

-- The part of `chain_entry_to_free_list` that puts the entry into the list of its size.
unfoldable pub insert_entry : Pool → FreeList → ℕ → Result (Pool × FreeList)
unfolding insert_from
insert_entry pool free_list entry = do
  let e : MemoryEntry = entry_at pool entry
  let order = size_to_page_order (get_size e)
  assert (is_none e.list_next)
  assert (is_none e.list_prev)
  elim (get_memory_entry (get_or free_list order none)) [
    | none ↦ ok (pool, set free_list order (some e.id))
    | some head ↦
        if leb (get_size e) (get_size (entry_at pool head))
        then (let before = set pool head (record (entry_at pool head) { list_prev = some e.id }) in
            ok (
              set before entry
                  (record (entry_at before entry) { list_next = some (entry_at before head).id }),
              set free_list order (some e.id),
            ))
        else (do pool' ← insert_from pool_size pool entry head; ok (pool', free_list))
  ]

unfoldable pub chain_entry_to_free_list : Pool → FreeList → ℕ → Option ℕ → Result (Pool × FreeList)
unfolding insert_entry drop_head unchain_from_freelist
chain_entry_to_free_list pool free_list entry none = insert_entry pool free_list entry
chain_entry_to_free_list pool free_list entry (some old_size) =
    if old_size == get_size (entry_at pool entry)
    then ok (pool, free_list)
    else insert_entry (unchain_from_freelist pool entry)
        (drop_head pool free_list (size_to_page_order old_size) entry) entry

-- The `while` of `search_entry_containing_address_mut`.
unfoldable pub containing_from : ℕ → Pool → ℕ → ℕ → Result (Option ℕ)
containing_from zero pool entry address = out_of_fuel
containing_from (suc fuel) pool entry address =
    if ltb (entry_at pool entry).start address && ltb (entry_at pool entry).end address
    then elim (get_next_entry pool entry) [
      | none ↦ ok none
      | some t ↦ containing_from fuel pool t address
    ]
    else ok (
        if leb (entry_at pool entry).start address && leb address (entry_at pool entry).end
        then some entry
        else none)

unfoldable pub search_entry_containing_address_mut : Pool → Option ℕ → ℕ → Result (Option ℕ)
unfolding containing_from
search_entry_containing_address_mut pool first_entry address = elim (get_memory_entry first_entry) [
  | none ↦ ok none
  | some entry ↦ containing_from pool_size pool entry address
]

-- The `while` of `search_entry_previous_address_mut`, and what follows it.
unfoldable pub previous_from : ℕ → Pool → ℕ → ℕ → Result (Option ℕ)
previous_from zero pool entry address = out_of_fuel
previous_from (suc fuel) pool entry address =
    if ltb (entry_at pool entry).start address
    then elim (get_next_entry pool entry) [
      | none ↦
          ok (
            if leb (entry_at pool entry).end address then some entry else get_prev_entry pool entry)
      | some t ↦ previous_from fuel pool t address
    ]
    else ok (get_prev_entry pool entry)

unfoldable pub search_entry_previous_address_mut : Pool → Option ℕ → ℕ → Result (Option ℕ)
unfolding previous_from
search_entry_previous_address_mut pool first_entry address = elim (get_memory_entry first_entry) [
  | none ↦ ok none
  | some entry ↦ previous_from pool_size pool entry address
]
