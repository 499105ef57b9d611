-- ===== src/Fat32/OnDevice.antt =====
-- The numbers of src/fat32.rs for clusters that lie on the device: none of the checked operations
-- overflows, and the addresses are those of the table.
use mini_visor.Base.{
  ℕ, suc, ◌+◌, ◌-◌, ◌*◌, ◌/◌, ◌%◌, ◌^◌, ◌≤◌, ◌<◌, ◌≡◌, ◌∙◌, ap, refl, done, add64, sub64, mul64,
  clear_bits, ◌>>=◌, sym, arith,
}
use native.Mathlib.Nat.{mul-le-mul_right, div-lt_iff_lt-mul, mul_assoc, mul-mod_left}
use mini_visor.Base.Bits.{bit_and-le_left}
use mini_visor.Fat32.{Fat32, cluster_to_sector, sector_address}
use mini_visor.Fat32.Read.{bytes_per_cluster, aligned_size}
use mini_visor.Fat32.Chain.{cluster_sector, cluster_address}

-- The clusters from `c` to `c + n` lie on a device of `capacity` bytes, their addresses fit, and a
-- request for them is one that `operation_sync` of src/drivers/virtio_blk.rs takes: whole blocks of
-- 512 bytes, of a length that a descriptor of the queue holds.
pub record IsOnDevice (f : Fat32) (capacity c n : ℕ) : Type 0 where
  pub lba_pos : 0 < f.lba_size
  pub sector_pos : 0 < f.bytes_per_sector
  pub cluster_pos : 0 < bytes_per_cluster f
  pub cluster_ge : 2 ≤ c
  pub sectors_fit : cluster_sector f c + suc n * f.sectors_per_cluster < 2 ^ 32
  pub bytes_end : cluster_address f c + suc n * bytes_per_cluster f ≤ capacity
  pub cluster_fits : c + n < 2 ^ 32
  pub bytes_fit : capacity + f.lba_size < 2 ^ 64
  pub lba_aligned : f.lba_size % 512 ≡ 0
  pub sector_aligned : f.bytes_per_sector % 512 ≡ 0
  pub request_fits : suc n * bytes_per_cluster f < 2 ^ 32

-- A number of sectors whose size is a multiple of 512 bytes.
pub aligned-mul : (a b : ℕ) → b % 512 ≡ 0 → a * b % 512 ≡ 0
aligned-mul a b e =
    let split : b ≡ b / 512 * 512 = omega arith in
    ap (λ x. a * x % 512) split
    ∙ ap (λ x. x % 512) (sym (mul_assoc a (b / 512) 512))
    ∙ mul-mod_left (a * (b / 512)) 512

module _ (f : Fat32) (capacity c n : ℕ) (on : IsOnDevice f capacity c n) where
  pub cluster_to_sector-IsOnDevice : cluster_to_sector f c ≡ done (cluster_sector f c)
  unfolding cluster_to_sector
  cluster_to_sector-IsOnDevice = let fit = on.sectors_fit in let ge = on.cluster_ge in ground arith

  pub cluster_address-aligned : cluster_address f c % 512 ≡ 0
  cluster_address-aligned =
      let base = aligned-mul f.base_lba f.lba_size on.lba_aligned in
      let sectors = aligned-mul (cluster_sector f c) f.bytes_per_sector on.sector_aligned in
      omega (arith, base, sectors)

  -- The sectors of a request of the extent.
  pub sectors-IsOnDevice :
      (length : ℕ)
      → 0 < length
      → length ≤ suc n * bytes_per_cluster f
      → (1 + (length - 1) / f.bytes_per_sector) * f.bytes_per_sector ≤ suc n * bytes_per_cluster f
  sectors-IsOnDevice length pos le =
      let split : suc n * bytes_per_cluster f ≡ suc n * f.sectors_per_cluster * f.bytes_per_sector =
        sym (mul_assoc (suc n) f.sectors_per_cluster f.bytes_per_sector) in
      let lt : (length - 1) / f.bytes_per_sector < suc n * f.sectors_per_cluster =
        (div-lt_iff_lt-mul on.sector_pos).1 (omega arith) in
      let le' : (1 + (length - 1) / f.bytes_per_sector) * f.bytes_per_sector
          ≤ suc n * f.sectors_per_cluster * f.bytes_per_sector =
        mul-le-mul_right f.bytes_per_sector (omega arith) in
      omega arith

  pub sector_address-IsOnDevice : sector_address f (cluster_sector f c) ≡ done (cluster_address f c)
  unfolding sector_address
  sector_address-IsOnDevice = let fit = on.bytes_fit in let end = on.bytes_end in ground arith

  -- The buffer of a request is not larger than the request, but for a block.
  pub aligned_size-IsOnDevice :
      (sectors : ℕ)
      → sectors * f.bytes_per_sector ≤ capacity
      → aligned_size f sectors
        ≡ done (clear_bits 64 (sectors * f.bytes_per_sector) (f.lba_size - 1) + f.lba_size)
  unfolding aligned_size
  aligned_size-IsOnDevice sectors le =
      let fit = on.bytes_fit in
      let pos = on.lba_pos in
      let cleared : clear_bits 64 (sectors * f.bytes_per_sector) (f.lba_size - 1)
          ≤ sectors * f.bytes_per_sector =
        bit_and-le_left 64 (sectors * f.bytes_per_sector) _ (omega arith) in
      let size : mul64 sectors f.bytes_per_sector ≡ done (sectors * f.bytes_per_sector) =
        ground arith in
      let mask : sub64 f.lba_size 1 ≡ done (f.lba_size - 1) = ground arith in
      let sum : add64 (clear_bits 64 (sectors * f.bytes_per_sector) (f.lba_size - 1)) f.lba_size
          ≡ done (clear_bits 64 (sectors * f.bytes_per_sector) (f.lba_size - 1) + f.lba_size) =
        ground arith in
      rw (size, mask, sum, aligned_size, ◌>>=◌) refl
