-- ===== src/Dtb/Property.antt =====
-- The readers of properties in src/dtb.rs.
use mini_visor.Base.{
  bytes_at, same_bytes, ℕ, zero, suc, ◌+◌, ◌*◌, ◌^◌, bit_or, Bool, true, false, List, [], ◌∷◌, ◌++◌,
  u64, ◌<<<◌, ◌==◌, ltb, if◌then◌else◌,
}
use mini_visor.Dtb.{
  Parsed, found, fails, panics, exhausted, ◌>>=◌, Dtb, DtbNode, DtbProperty, begin_node, end_node,
  prop, nop, end, other, token, from_be_bytes, compare_name_segment, read_node,
}
use mini_visor.Dtb.Search.{next_bytes, check_address_and_size_cells, prop_compatible}

abbrev pub prop_reg : List ℕ
prop_reg = 0x72 ∷ 0x65 ∷ 0x67 ∷ []

abbrev pub prop_status : List ℕ
prop_status = 0x73 ∷ 0x74 ∷ 0x61 ∷ 0x74 ∷ 0x75 ∷ 0x73 ∷ []

-- `okay` and its end
abbrev pub prop_status_okay : List ℕ
prop_status_okay = 0x6f ∷ 0x6b ∷ 0x61 ∷ 0x79 ∷ 0 ∷ []

-- Sums and products of `u32` are checked.
abbrev pub checked32 : ℕ → Parsed ℕ
checked32 n = if ltb n (2 ^ 32) then found n else panics

module _ (memory : ℕ → ℕ) where
  -- The loop of `get_property`.
  unfoldable pub property_from : ℕ → Dtb → List ℕ → ℕ → ℕ → ℕ → Parsed DtbProperty
  unfolding next_bytes check_address_and_size_cells
  property_from zero d property_name pointer address_cells size_cells = exhausted
  property_from (suc fuel) d property_name pointer address_cells size_cells = do
    (p, bytes) ← next_bytes memory fuel d pointer
    elim (token bytes) [
      | begin_node ↦ fails
      | end_node ↦ fails
      | prop ↦ (do
        len ← read_node memory d (p + 4)
        name_segment ← read_node memory d (p + 4 + 4)
        (address_cells', size_cells') ←
            check_address_and_size_cells memory d (from_be_bytes name_segment) (p + 4 + 4 + 4)
              address_cells size_cells
        is_it ← compare_name_segment memory d (from_be_bytes name_segment) property_name []
        if is_it
            then found (record {
              address = p + 4 + 4 + 4;
              address_cells = address_cells';
              size_cells = size_cells';
              len = from_be_bytes len;
            })
            else property_from fuel d property_name (p + 4 + 4 + 4 + from_be_bytes len)
                address_cells' size_cells')
      | nop ↦ fails
      | end ↦ fails
      | other ↦ fails
    ]

  unfoldable pub get_property : ℕ → Dtb → DtbNode → List ℕ → Parsed DtbProperty
  unfolding property_from
  get_property fuel d node property_name =
      property_from fuel d property_name node.address node.address_cells node.size_cells

  -- `.map(..).unwrap_or(true)`
  unfoldable pub is_node_operational : ℕ → Dtb → DtbNode → Parsed Bool
  is_node_operational fuel d node = elim (get_property fuel d node prop_status) [
    | found p ↦ found (same_bytes (bytes_at memory p.address 5) prop_status_okay)
    | fails ↦ found true
    | panics ↦ panics
    | exhausted ↦ exhausted
  ]

  -- The inner loop of `_is_device_compatible`: whether all the bytes match, and the place behind
  -- them, or that of the first that does not.
  unfoldable pub match_from : ℕ → List ℕ → ℕ → Bool × ℕ
  match_from address [] p = (true, p)
  match_from address (c ∷ expected) p =
      if memory (address + p) == c then match_from address expected (p + 1) else (false, p)

  -- The outer loop, at `p` with the flag `skip`.
  unfoldable pub compatible_from : ℕ → DtbProperty → List ℕ → ℕ → Bool → Parsed Bool
  unfolding match_from
  compatible_from zero info compatible p skip = exhausted
  compatible_from (suc fuel) info compatible p true =
      let rest = compatible_from fuel info compatible (p + 1) in
      if ltb p info.len
      then (if memory (info.address + p) == 0 then rest false else rest true)
      else found false
  compatible_from (suc fuel) info compatible p false =
      let (matches, after) = match_from info.address (compatible ++ 0 ∷ []) p in
      let rest = compatible_from fuel info compatible after true in
      if ltb p info.len then (if matches then found true else rest) else found false

  -- Each byte of the property is looked at twice at most: where a match stops, and in skipping.
  unfoldable pub is_property_compatible : DtbProperty → List ℕ → Parsed Bool
  unfolding compatible_from
  is_property_compatible info compatible =
      compatible_from (2 * info.len + 1) info compatible 0 false

  unfoldable pub is_device_compatible : ℕ → Dtb → DtbNode → List ℕ → Parsed Bool
  is_device_compatible fuel d node compatible = elim (get_property fuel d node prop_compatible) [
    | found info ↦ is_property_compatible info compatible
    | fails ↦ found false
    | panics ↦ panics
    | exhausted ↦ exhausted
  ]

  -- `for i in 0..n { x <<= 8; x |= byte }`
  unfoldable pub read_cells : ℕ → ℕ → ℕ → ℕ
  read_cells zero p x = x
  read_cells (suc n) p x = read_cells n (p + 1) (bit_or (u64 (x <<< 8)) (memory p))

  unfoldable pub read_reg_property : ℕ → Dtb → DtbNode → ℕ → Parsed (ℕ × ℕ)
  unfolding read_cells
  read_reg_property fuel d node i = do
    info ← get_property fuel d node prop_reg
    cells ← checked32 (info.address_cells + info.size_cells)
    let offset = cells * 4 * i
    if ltb info.len (offset + cells * 4) then fails else do
      address_bytes ← checked32 (info.address_cells * 4)
      size_bytes ← checked32 (info.size_cells * 4)
      found (
        read_cells address_bytes (info.address + offset) 0,
        read_cells size_bytes (info.address + offset + address_bytes) 0,
      )

  unfoldable pub read_property_as_u8_array : DtbProperty → List ℕ
  read_property_as_u8_array info = bytes_at memory info.address info.len
