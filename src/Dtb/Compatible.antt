-- ===== src/Dtb/Compatible.antt =====
-- The search for a node by its `compatible` property in src/dtb.rs.
use mini_visor.Base.{ℕ, zero, suc, ◌+◌, false, List, [], Option, none, some, if◌then◌else◌}
use mini_visor.Dtb.{
  Parsed, found, fails, exhausted, ◌>>=◌, Dtb, DtbNode, DtbProperty, begin_node, end_node, prop,
  nop, end, other, token, from_be_bytes, skip_padding, get_struct_offset, compare_name_segment,
  skip_string, read_node, skip_nop,
}
use mini_visor.Dtb.Search.{
  next_bytes, check_address_and_size_cells, prop_compatible, skip_to_next_node,
}
use mini_visor.Dtb.Property.{is_property_compatible}

module _ (memory : ℕ → ℕ) where
  -- The start of `_search_node_by_compatible`, which skips the name of the node.
  unfoldable pub enter_any_node :
      (inside : ℕ → Parsed (Option DtbNode × ℕ)) → ℕ → Dtb → ℕ → Parsed (Option DtbNode × ℕ)
  enter_any_node inside fuel d pointer = do
    p ← skip_nop memory fuel d pointer
    bytes ← read_node memory d p
    elim (token bytes) [
      | begin_node ↦ (do
        after ← skip_string memory fuel (p + 4)
        temporary_pointer ← skip_padding after
        inside temporary_pointer)
      | end_node ↦ fails
      | prop ↦ fails
      | nop ↦ fails
      | end ↦ fails
      | other ↦ fails
    ]

  -- Its loop; `node` is the place of the node's contents, `temporary_pointer`.
  unfoldable pub compatible_inside : ℕ → Dtb → List ℕ → ℕ → ℕ → ℕ → ℕ → Parsed (Option DtbNode × ℕ)
  unfolding enter_any_node
  compatible_inside zero d compatible node pointer address_cells size_cells = exhausted
  compatible_inside (suc fuel) d compatible node pointer address_cells size_cells = do
    (p, bytes) ← next_bytes memory fuel d pointer
    elim (token bytes) [
      | begin_node ↦ (do
        (answer, after) ←
            enter_any_node
              (λ inner. compatible_inside fuel d compatible inner inner address_cells size_cells)
              fuel d p
        elim answer [
          | none ↦ compatible_inside fuel d compatible node after address_cells size_cells
          | some it ↦ found (some it, after)
        ])
      | end_node ↦ found (none, p + 4)
      | prop ↦ (do
        len ← read_node memory d (p + 4)
        name_segment ← read_node memory d (p + 4 + 4)
        (address_cells', size_cells') ←
            check_address_and_size_cells memory d (from_be_bytes name_segment) (p + 4 + 4 + 4)
              address_cells size_cells
        is_it ← compare_name_segment memory d (from_be_bytes name_segment) prop_compatible []
        let info : DtbProperty = record {
          address = p + 4 + 4 + 4;
          address_cells = address_cells';
          size_cells = size_cells';
          len = from_be_bytes len;
        }
        matches ← (if is_it then is_property_compatible memory info compatible else found false)
        if matches
            then found (
              some (record {
                address = node;
                address_cells = address_cells';
                size_cells = size_cells';
              }),
              p + 4 + 4 + 4,
            )
            else compatible_inside fuel d compatible node (p + 4 + 4 + 4 + from_be_bytes len)
                address_cells' size_cells')
      | nop ↦ fails
      | end ↦ fails
      | other ↦ fails
    ]

  unfoldable pub compatible_each : ℕ → Dtb → List ℕ → ℕ → ℕ → ℕ → Parsed DtbNode
  unfolding enter_any_node compatible_inside
  compatible_each zero d compatible pointer address_cells size_cells = exhausted
  compatible_each (suc fuel) d compatible pointer address_cells size_cells = do
    bytes ← read_node memory d pointer
    (answer, after) ←
        enter_any_node
          (λ inner. compatible_inside fuel d compatible inner inner address_cells size_cells) fuel d
          pointer
    elim answer [
      | none ↦ compatible_each fuel d compatible (after + 4) address_cells size_cells
      | some node ↦ found node
    ]

  unfoldable pub search_node_by_compatible : ℕ → Dtb → List ℕ → Option DtbNode → Parsed DtbNode
  unfolding compatible_each
  search_node_by_compatible fuel d compatible none =
      compatible_each fuel d compatible (get_struct_offset memory d) 2 1
  search_node_by_compatible fuel d compatible (some c) = do
    pointer ← skip_to_next_node memory fuel d c.address
    compatible_each fuel d compatible pointer c.address_cells c.size_cells
