-- ===== src/Dtb/Search.antt =====
-- The searches for nodes in src/dtb.rs, and the readers of properties that they use.
use mini_visor.Base.{ℕ, zero, suc, ◌+◌, List, [], ◌∷◌, Option, none, some, if◌then◌else◌}
use mini_visor.Dtb.{
  Parsed, found, fails, exhausted, ◌>>=◌, Dtb, DtbNode, begin_node, end_node, prop, nop, end, other,
  token, from_be_bytes, skip_padding, get_struct_offset, compare_name_segment, compare_string,
  read_node, skip_nop,
}

-- `#address-cells`, `#size-cells` and `compatible`.
abbrev pub prop_address_cells : List ℕ
prop_address_cells =
    0x23 ∷ 0x61 ∷ 0x64 ∷ 0x64 ∷ 0x72 ∷ 0x65 ∷ 0x73 ∷ 0x73 ∷ 0x2d ∷ 0x63 ∷ 0x65 ∷ 0x6c ∷ 0x6c ∷ 0x73
    ∷ []

abbrev pub prop_size_cells : List ℕ
prop_size_cells = 0x23 ∷ 0x73 ∷ 0x69 ∷ 0x7a ∷ 0x65 ∷ 0x2d ∷ 0x63 ∷ 0x65 ∷ 0x6c ∷ 0x6c ∷ 0x73 ∷ []

abbrev pub prop_compatible : List ℕ
prop_compatible = 0x63 ∷ 0x6f ∷ 0x6d ∷ 0x70 ∷ 0x61 ∷ 0x74 ∷ 0x69 ∷ 0x62 ∷ 0x6c ∷ 0x65 ∷ []

module _ (memory : ℕ → ℕ) where
  -- The token at the next place that is no padding and no NOP, and that place.
  unfoldable pub next_bytes : ℕ → Dtb → ℕ → Parsed (ℕ × List ℕ)
  unfolding skip_nop
  next_bytes fuel d pointer = do
    padded ← skip_padding pointer
    p ← skip_nop memory fuel d padded
    bytes ← read_node memory d p
    found (p, bytes)

  unfoldable pub skip_to_next_node : ℕ → Dtb → ℕ → Parsed ℕ
  unfolding next_bytes
  skip_to_next_node zero d pointer = exhausted
  skip_to_next_node (suc fuel) d pointer = do
    (p, bytes) ← next_bytes fuel d pointer
    elim (token bytes) [
      | begin_node ↦ (do after ← skip_to_next_node fuel d (p + 4); skip_to_next_node fuel d after)
      | end_node ↦ found (p + 4)
      | prop ↦ (do
        len ← read_node memory d (p + 4)
        skip_to_next_node fuel d (p + 4 + 4 + 4 + from_be_bytes len))
      | nop ↦ fails
      | end ↦ fails
      | other ↦ fails
    ]

  unfoldable pub check_address_and_size_cells : Dtb → ℕ → ℕ → ℕ → ℕ → Parsed (ℕ × ℕ)
  check_address_and_size_cells d name_segment pointer address_cells size_cells = do
    is_address ← compare_name_segment memory d name_segment prop_address_cells []
    if is_address
        then (do bytes ← read_node memory d pointer; found (from_be_bytes bytes, size_cells))
        else (do
          is_size ← compare_name_segment memory d name_segment prop_size_cells []
          if is_size
              then (do
                bytes ← read_node memory d pointer
                found (address_cells, from_be_bytes bytes))
              else found (address_cells, size_cells))

  -- `_search_node`, with its loop over what stands in the node, `inside`, as an argument.
  unfoldable pub enter_node :
      (inside : ℕ → Parsed (Option DtbNode × ℕ))
      → ℕ
      → Dtb
      → List ℕ
      → ℕ
      → ℕ
      → ℕ
      → Parsed (Option DtbNode × ℕ)
  unfolding skip_nop read_node compare_string
  enter_node inside fuel d node_name pointer address_cells size_cells = do
    p ← skip_nop memory fuel d pointer
    bytes ← read_node memory d p
    elim (token bytes) [
      | begin_node ↦ (do
        (is_it, inner) ← compare_string memory fuel (p + 4) node_name (0x40 ∷ [])
        if is_it
            then found (
              some (record {
                address = inner;
                address_cells = address_cells;
                size_cells = size_cells;
              }),
              inner,
            )
            else inside inner)
      | end_node ↦ fails
      | prop ↦ fails
      | nop ↦ fails
      | end ↦ fails
      | other ↦ fails
    ]

  -- The loop of `_search_node`.
  unfoldable pub search_inside : ℕ → Dtb → List ℕ → ℕ → ℕ → ℕ → Parsed (Option DtbNode × ℕ)
  unfolding next_bytes check_address_and_size_cells enter_node
  search_inside zero d node_name pointer address_cells size_cells = exhausted
  search_inside (suc fuel) d node_name pointer address_cells size_cells = do
    (p, bytes) ← next_bytes fuel d pointer
    elim (token bytes) [
      | begin_node ↦ (do
        (answer, after) ←
            enter_node (λ inner. search_inside fuel d node_name inner address_cells size_cells) fuel
              d node_name p address_cells size_cells
        elim answer [
          | none ↦ search_inside fuel d node_name after address_cells size_cells
          | some node ↦ found (some node, after)
        ])
      | end_node ↦ found (none, p + 4)
      | prop ↦ (do
        len ← read_node memory d (p + 4)
        name_segment ← read_node memory d (p + 4 + 4)
        (address_cells', size_cells') ←
            check_address_and_size_cells d (from_be_bytes name_segment) (p + 4 + 4 + 4)
              address_cells size_cells
        search_inside fuel d node_name (p + 4 + 4 + 4 + from_be_bytes len) address_cells'
            size_cells')
      | nop ↦ fails
      | end ↦ fails
      | other ↦ fails
    ]

  -- The `while` of `search_node`.
  unfoldable pub search_each : ℕ → Dtb → List ℕ → ℕ → ℕ → ℕ → Parsed DtbNode
  unfolding enter_node search_inside
  search_each zero d node_name pointer address_cells size_cells = exhausted
  search_each (suc fuel) d node_name pointer address_cells size_cells = do
    bytes ← read_node memory d pointer
    (answer, after) ←
        enter_node (λ inner. search_inside fuel d node_name inner address_cells size_cells) fuel d
          node_name pointer address_cells size_cells
    elim answer [
      | none ↦ search_each fuel d node_name (after + 4) address_cells size_cells
      | some node ↦ found node
    ]

  unfoldable pub search_node : ℕ → Dtb → List ℕ → Option DtbNode → Parsed DtbNode
  unfolding search_each skip_to_next_node
  search_node fuel d node_name none = search_each fuel d node_name (get_struct_offset memory d) 2 1
  search_node fuel d node_name (some c) = do
    pointer ← skip_to_next_node fuel d c.address
    search_each fuel d node_name pointer c.address_cells c.size_cells
