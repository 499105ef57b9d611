-- ===== src/VirtioBlk/Rings.antt =====
-- Where the rings of src/mmio/virtio_blk.rs lie.
use native.Mathlib.Nat.{mul-mod_left, lt-div-mul-add, div-mul-le_self, one-le-pow, add-mul}
use mini_visor.Base.{
  ℕ, ◌+◌, ◌-◌, ◌*◌, ◌/◌, ◌%◌, ◌^◌, ◌<◌, ◌≤◌, ◌≡◌, ◌∙◌, refl, ap, arith, true, some, done, ◌>>=◌,
  clear_bits, ltb, leb,
}
use mini_visor.Allocator.Align.{align_down_lem}
use mini_visor.Vm.{Vm, get_physical_address}
use mini_visor.VirtioBlk.{VirtioBlkMmio, place_rings}
use mini_visor.VirtioBlk.Mmio.{set_queue_num, set_queue_pfn}

-- The place of the used ring behind `n` descriptors from `d` on and the available ring.
abbrev used_at : ℕ → ℕ → ℕ → ℕ
used_at d n k = (d + 16 * n + 2 * (3 + n) - 1) / 2 ^ k * 2 ^ k + 2 ^ k

place_rings_fits :
    (b : VirtioBlkMmio) (k : ℕ)
    → b.page_size ≡ 2 ^ k
    → k ≤ 63
    → b.descriptor + 18 * b.queue_size + 6 + 2 ^ k < 2 ^ 64
    → place_rings b
      ≡ done (record b {
        avail_ring = b.descriptor + 16 * b.queue_size;
        used_ring = used_at b.descriptor b.queue_size k;
      })
unfolding place_rings
place_rings_fits b k page small fits =
    let last : ℕ = b.descriptor + 16 * b.queue_size + 2 * (3 + b.queue_size) - 1 in
    let one : 1 ≤ 2 ^ k = one-le-pow k 2 (omega arith) in
    let table : ltb (16 * b.queue_size) (2 ^ 64) ≡ true = ground arith in
    let avail : ltb (b.descriptor + 16 * b.queue_size) (2 ^ 64) ≡ true = ground arith in
    let entries : ltb (3 + b.queue_size) (2 ^ 64) ≡ true = ground arith in
    let ring : ltb (2 * (3 + b.queue_size)) (2 ^ 64) ≡ true = ground arith in
    let top : ltb (b.descriptor + 16 * b.queue_size + 2 * (3 + b.queue_size)) (2 ^ 64) ≡ true =
      ground arith in
    let some_top : leb 1 (b.descriptor + 16 * b.queue_size + 2 * (3 + b.queue_size)) ≡ true =
      ground arith in
    let some_page : leb 1 (2 ^ k) ≡ true = ground arith in
    let down : clear_bits 64 (b.descriptor + 16 * b.queue_size + 2 * (3 + b.queue_size) - 1)
          (2 ^ k - 1)
        ≡ (b.descriptor + 16 * b.queue_size + 2 * (3 + b.queue_size) - 1) / 2 ^ k * 2 ^ k =
      align_down_lem _ k (omega arith) (omega arith) in
    let below =
      div-mul-le_self (b.descriptor + 16 * b.queue_size + 2 * (3 + b.queue_size) - 1) (2 ^ k) in
    let used : ltb (used_at b.descriptor b.queue_size k) (2 ^ 64) ≡ true = ground arith in
    rw page (
      rw table (
        rw avail
          (rw entries (rw ring (rw top (rw some_top (rw some_page (rw down (rw used refl)))))))))

-- For a page size that is a power of 2, a page number that lies in the guest's RAM and rings below
-- 2^64: whether the guest writes the queue's size or its page first, both writes succeed and leave
-- the same device. Its available ring is behind the n descriptors, and its used ring starts at a
-- page that is behind the available ring.
pub queue_order_lem :
    {S : Type 0} (vm : Vm S) (b : VirtioBlkMmio) (k n p a : ℕ)
    → b.page_size ≡ 2 ^ k
    → k ≤ 63
    → p * b.page_size < 2 ^ 64
    → get_physical_address vm (p * b.page_size) ≡ done (some a)
    → b.descriptor + 18 * n + 6 + 2 ^ k < 2 ^ 64
    → a + 18 * b.queue_size + 6 + 2 ^ k < 2 ^ 64
    → a + 18 * n + 6 + 2 ^ k < 2 ^ 64
    → (b' : VirtioBlkMmio) × ((set_queue_num n b >>= set_queue_pfn vm p) ≡ done b')
      × ((set_queue_pfn vm p b >>= set_queue_num n) ≡ done b')
      × (b'.descriptor ≡ a)
      × (b'.queue_size ≡ n)
      × (b'.avail_ring ≡ a + 16 * n)
      × (b'.avail_ring + 2 * (3 + n) ≤ b'.used_ring)
      × (b'.used_ring % b.page_size ≡ 0)
unfolding set_queue_num set_queue_pfn
queue_order_lem vm b k n p a page small product at old_table old_size new_table =
    let inside : ltb (p * b.page_size) (2 ^ 64) ≡ true = ground arith in
    let one : 1 ≤ 2 ^ k = one-le-pow k 2 (omega arith) in
    let num = place_rings_fits (record b { queue_size = n }) k page small old_table in
    let pfn = place_rings_fits (record b { descriptor = a }) k page small old_size in
    (
      record b {
        descriptor = a;
        queue_size = n;
        avail_ring = a + 16 * n;
        used_ring = used_at a n k;
      },
      rw num (
          rw inside (
            rw at (
              place_rings_fits
                (record b {
                  queue_size = n;
                  descriptor = a;
                  avail_ring = b.descriptor + 16 * n;
                  used_ring = used_at b.descriptor n k;
                })
                k page small new_table))),
      rw inside (
          rw at (
            rw pfn (
              place_rings_fits
                (record b {
                  queue_size = n;
                  descriptor = a;
                  avail_ring = a + 16 * b.queue_size;
                  used_ring = used_at a b.queue_size k;
                })
                k page small new_table))),
      refl,
      refl,
      refl,
      omega (arith, lt-div-mul-add {a = a + 16 * n + 2 * (3 + n) - 1} one),
      ap (λ (t : ℕ). used_at a n k % t) page
          ∙ ap (λ (t : ℕ). t % 2 ^ k)
              (omega (arith, add-mul ((a + 16 * n + 2 * (3 + n) - 1) / 2 ^ k) 1 (2 ^ k)))
          ∙ mul-mod_left ((a + 16 * n + 2 * (3 + n) - 1) / 2 ^ k + 1) (2 ^ k),
    )
