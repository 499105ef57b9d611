-- ===== src/Allocator/Orders.antt =====
-- The order of a size in src/memory_allocator.rs.
use mathlib.Core.Path.{subst}
use mini_visor.Base.{
  ℕ, zero, suc, ◌+◌, ◌^◌, ◌<◌, ◌≤◌, ◌≡◌, ◌⊎◌, inl, inr, arith, ltb, ◌==◌, Bool-cases, ltb→lt,
}
use mini_visor.Allocator.{num_of_free_list, size_to_page_order, page_order_from}

page_order_from-bounds :
    (left o size : ℕ) → (o ≤ page_order_from left o size) × (page_order_from left o size ≤ o + left)
unfolding page_order_from
page_order_from-bounds zero o size = (omega arith, omega arith)
page_order_from-bounds (suc left) o size =
    let rest = page_order_from-bounds left (o + 1) size in ground arith

page_order_from_mono :
    (left o a b : ℕ) → a ≤ b → page_order_from left o a ≤ page_order_from left o b
unfolding page_order_from
page_order_from_mono zero o a b le = omega arith
page_order_from_mono (suc left) o a b le =
    let rest = page_order_from_mono left (o + 1) a b le in
    let lower = page_order_from-bounds left (o + 1) b in ground arith

page_order_from_lem :
    (left o size : ℕ)
    → ((size ≤ 2 ^ (page_order_from left o size + 12)) ⊎ (page_order_from left o size ≡ o + left))
      × ((k : ℕ) → o ≤ k → k < page_order_from left o size → 2 ^ (k + 12) < size)
unfolding page_order_from
page_order_from_lem zero o size = (inr (omega arith), λ k le lt. absurd (omega arith))
page_order_from_lem (suc left) o size = elim (Bool-cases (ltb (2 ^ (o + 12)) size)) [
  | inl more ↦
      let rest = page_order_from_lem left (o + 1) size in
      rw more (
        elim rest.0 [ inl le ↦ inl le | inr e ↦ inr (omega arith) ],
        λ k le lt. elim (Bool-cases (k == o)) [
          | inl same ↦
              let e : o ≡ k = ground arith in
              subst (λ (n : ℕ). 2 ^ (n + 12) < size) e (ltb→lt _ _ more)
          | inr other ↦ rest.1 k (ground arith) lt
        ],
      )
  | inr done ↦ rw done (inl (ground arith), λ k le lt. absurd (omega arith))
]

-- size_to_page_order returns one of the 12 orders: the least one whose blocks of 2^(order + 12) bytes
-- are not smaller than the size, or the last one.
pub size_to_page_order_lem :
    (size : ℕ)
    → (size_to_page_order size < num_of_free_list)
      × ((size ≤ 2 ^ (size_to_page_order size + 12)) ⊎ (size_to_page_order size ≡ 11))
      × ((k : ℕ) → k < size_to_page_order size → 2 ^ (k + 12) < size)
unfolding size_to_page_order
size_to_page_order_lem size =
    let steps = page_order_from_lem 11 0 size in
    let bounds = page_order_from-bounds 11 0 size in
    (omega arith, steps.0, λ k lt. steps.1 k (omega arith) lt)

pub size_to_page_order_mono : (a b : ℕ) → a ≤ b → size_to_page_order a ≤ size_to_page_order b
unfolding size_to_page_order
size_to_page_order_mono a b le = page_order_from_mono 11 0 a b le
