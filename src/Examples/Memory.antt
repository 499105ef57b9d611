-- ===== src/Examples/Memory.antt =====
-- The memory allocator at a concrete region.
use mini_visor.Base.{ℕ, ◌+◌, ◌^◌, ◌-◌, ◌≡◌, ◌≢◌, ◌<◌, ◌≤◌, ◌⊎◌, refl, arith}
use mini_visor.Allocator.{
  ok, out_of_fuel, ◌>>=◌, new, size_to_page_order, num_of_free_list, get_end_address, set_range,
  align_address_and_available_size,
}
use mini_visor.Allocator.Uses.{allocate, find_from}
use mini_visor.Allocator.Chains.{chain_entry_to_free_list}
use mini_visor.Allocator.Frees.{free}
use mini_visor.Allocator.Ranges.{of_Gives}
use mini_visor.Allocator.Search.{Allocates, allocate_lem}
use mini_visor.Allocator.Orders.{size_to_page_order_lem}
use mini_visor.Allocator.Region.{region, region-IsPool, region-AreListed, region-AreAcyclic}
use mini_visor.Allocator.Termination.{allocate-ne_out_of_fuel}
use mini_visor.Allocator.Fresh.{allocate-free}

a_block : allocate (region 4096 65536) 256 8 ≡ ok (4096, region 4352 65280)
unfolding allocate size_to_page_order align_address_and_available_size get_end_address set_range
    chain_entry_to_free_list
a_block = refl

allocate_lem_example :
    Allocates (region 4096 65536) 256 8 (4096, region 4352 65280)
    × (find_from
          (num_of_free_list - size_to_page_order 256)
          (size_to_page_order 256)
          (region 4096 65536)
          256
          8
        ≢ out_of_fuel)
allocate_lem_example =
    let answer =
      allocate_lem (region 4096 65536) 256 8 (region-IsPool 4096 65536 (omega arith) (omega arith))
        (region-AreListed 4096 65536) (region-AreAcyclic 4096 65536) in
    (of_Gives (4096, region 4352 65280) answer.0 a_block, answer.1)

allocate-ne_out_of_fuel_example : allocate (region 4096 65536) 256 0 ≢ out_of_fuel
allocate-ne_out_of_fuel_example =
    allocate-ne_out_of_fuel (region 4096 65536) 256 (region-AreAcyclic 4096 65536)

allocate-free_example :
    (free 1 new 4096 65536 >>= λ s. allocate s 256 0) ≡ ok (4096, region 4352 65280)
allocate-free_example = allocate-free 4096 65536 1 256 (omega arith) (omega arith) (omega arith)

size_to_page_order_lem_example :
    (size_to_page_order 8192 < num_of_free_list)
    × ((8192 ≤ 2 ^ (size_to_page_order 8192 + 12)) ⊎ (size_to_page_order 8192 ≡ 11))
    × ((k : ℕ) → k < size_to_page_order 8192 → 2 ^ (k + 12) < 8192)
size_to_page_order_lem_example = size_to_page_order_lem 8192
