-- ===== src/Paging/Words.antt =====
-- The words of the descriptors of src/paging.rs.
use mini_visor.Base.{
  ℕ, zero, suc, ◌+◌, ◌-◌, ◌*◌, ◌^◌, ◌<◌, ◌≡◌, ◌∙◌, refl, ap, arith, bit_and, bit_or, clear_bits,
  complement,
}
use mini_visor.Base.Bits.{bit_and_mask, bit_and-zero}
use mini_visor.Base.Bits.Fields.{bit_and_chunk, bit_or_chunk, bit_or-zero, zero-bit_or}
use native.Mathlib.Nat.{mod-eq_of_lt}
use mini_visor.Paging.{
  leaf, page_descriptor, block_descriptor, table_descriptor, get_next_level_table_address,
  set_output_address, table_address_mask,
}

below_four : (P : ℕ → Type 0) → P 0 → P 1 → P 2 → P 3 → (n : ℕ) → n < 4 → P n
below_four P a b c d zero h = a
below_four P a b c d (suc zero) h = b
below_four P a b c d (suc (suc zero)) h = c
below_four P a b c d (suc (suc (suc zero))) h = d
below_four P a b c d (suc (suc (suc (suc n)))) h = absurd (omega arith)

permission : (p : ℕ) → p < 4 → bit_or 1024 (p * 64) ≡ 1024 + p * 64
permission = below_four (λ (p : ℕ). bit_or 1024 (p * 64) ≡ 1024 + p * 64) refl refl refl refl

no_attribute : (p : ℕ) → p < 4 → bit_and (1024 + p * 64) 4035 ≡ 1024 + p * 64
no_attribute =
    below_four (λ (p : ℕ). bit_and (1024 + p * 64) 4035 ≡ 1024 + p * 64) refl refl refl refl

attribute : (p : ℕ) → p < 4 → bit_or (1024 + p * 64) 60 ≡ 1084 + p * 64
attribute = below_four (λ (p : ℕ). bit_or (1024 + p * 64) 60 ≡ 1084 + p * 64) refl refl refl refl

no_sharing : (p : ℕ) → p < 4 → bit_and (1084 + p * 64) 3327 ≡ 1084 + p * 64
no_sharing =
    below_four (λ (p : ℕ). bit_and (1084 + p * 64) 3327 ≡ 1084 + p * 64) refl refl refl refl

sharing : (p : ℕ) → p < 4 → bit_or (1084 + p * 64) 768 ≡ 1852 + p * 64
sharing = below_four (λ (p : ℕ). bit_or (1084 + p * 64) 768 ≡ 1852 + p * 64) refl refl refl refl

page_bits : (p : ℕ) → p < 4 → bit_or (1852 + p * 64) 3 ≡ 1855 + p * 64
page_bits = below_four (λ (p : ℕ). bit_or (1852 + p * 64) 3 ≡ 1855 + p * 64) refl refl refl refl

block_bits : (p : ℕ) → p < 4 → bit_or (1852 + p * 64) 1 ≡ 1853 + p * 64
block_bits = below_four (λ (p : ℕ). bit_or (1852 + p * 64) 1 ≡ 1853 + p * 64) refl refl refl refl

module _ (q : ℕ) (h : q < 2 ^ 52) where
  -- Below the address, a mask and a new field see only the low 12 bits.
  clear_low :
      (r m : ℕ)
      → r < 4096
      → m < 4096
      → clear_bits 64 (q * 4096 + r) m ≡ q * 4096 + bit_and r (4095 - m)
  clear_low r m hr hm =
      ap (bit_and (q * 4096 + r)) split
      ∙ bit_and_chunk 12 q r (2 ^ 52 - 1) (4095 - m) hr (omega arith)
      ∙ ap (λ (t : ℕ). t * 4096 + bit_and r (4095 - m)) (bit_and_mask 52 q ∙ mod-eq_of_lt h)
    where
      split : complement 64 m ≡ (2 ^ 52 - 1) * 4096 + (4095 - m)
      split = omega arith

  or_low : (r v : ℕ) → r < 4096 → v < 4096 → bit_or (q * 4096 + r) v ≡ q * 4096 + bit_or r v
  or_low r v hr hv =
      let split : v ≡ 0 * 4096 + v = omega arith in
      ap (bit_or (q * 4096 + r)) split
      ∙ bit_or_chunk 12 q r 0 v hr hv
      ∙ ap (λ (t : ℕ). t * 4096 + bit_or r v) (bit_or-zero q)

  with_address : set_output_address 0 (q * 4096) ≡ q * 4096 + 1024
  with_address =
      ap (λ (t : ℕ). bit_or t 1024) (zero-bit_or (q * 4096) ∙ omega arith)
      ∙ or_low 0 1024 (omega arith) (omega arith)

  leaf_lem : (p : ℕ) → p < 4 → leaf (q * 4096) p ≡ q * 4096 + (1852 + p * 64)
  leaf_lem p hp =
      ap
        (λ (d : ℕ).
          bit_or
            (clear_bits 64 (bit_or (clear_bits 64 (bit_or (clear_bits 64 d 192) (p * 64)) 60) 60)
              768)
            768)
        with_address
      ∙ ap
          (λ (d : ℕ).
            bit_or (clear_bits 64 (bit_or (clear_bits 64 (bit_or d (p * 64)) 60) 60) 768) 768)
          (clear_low 1024 192 (omega arith) (omega arith))
      ∙ ap (λ (d : ℕ). bit_or (clear_bits 64 (bit_or (clear_bits 64 d 60) 60) 768) 768)
          (or_low 1024 (p * 64) (omega arith) (omega arith)
            ∙ ap (λ (r : ℕ). q * 4096 + r) (permission p hp))
      ∙ ap (λ (d : ℕ). bit_or (clear_bits 64 (bit_or d 60) 768) 768)
          (clear_low (1024 + p * 64) 60 (omega arith) (omega arith)
            ∙ ap (λ (r : ℕ). q * 4096 + r) (no_attribute p hp))
      ∙ ap (λ (d : ℕ). bit_or (clear_bits 64 d 768) 768)
          (or_low (1024 + p * 64) 60 (omega arith) (omega arith)
            ∙ ap (λ (r : ℕ). q * 4096 + r) (attribute p hp))
      ∙ ap (λ (d : ℕ). bit_or d 768)
          (clear_low (1084 + p * 64) 768 (omega arith) (omega arith)
            ∙ ap (λ (r : ℕ). q * 4096 + r) (no_sharing p hp))
      ∙ or_low (1084 + p * 64) 768 (omega arith) (omega arith)
      ∙ ap (λ (r : ℕ). q * 4096 + r) (sharing p hp)

  -- The fields of the leaf descriptors and of a table descriptor, as sums.
  pub page_descriptor_lem :
      (p : ℕ) → p < 4 → page_descriptor (q * 4096) p ≡ q * 4096 + (1855 + p * 64)
  unfolding page_descriptor
  page_descriptor_lem p hp =
      ap (λ (d : ℕ). bit_or d 3) (leaf_lem p hp)
      ∙ or_low (1852 + p * 64) 3 (omega arith) (omega arith)
      ∙ ap (λ (r : ℕ). q * 4096 + r) (page_bits p hp)

  pub block_descriptor_lem :
      (p : ℕ) → p < 4 → block_descriptor (q * 4096) p ≡ q * 4096 + (1853 + p * 64)
  unfolding block_descriptor
  block_descriptor_lem p hp =
      ap (λ (d : ℕ). bit_or d 1) (leaf_lem p hp)
      ∙ or_low (1852 + p * 64) 1 (omega arith) (omega arith)
      ∙ ap (λ (r : ℕ). q * 4096 + r) (block_bits p hp)

  pub table_descriptor_lem : table_descriptor (q * 4096) ≡ q * 4096 + 1027
  unfolding table_descriptor
  table_descriptor_lem =
      ap (λ (d : ℕ). bit_or d 3) with_address ∙ or_low 1024 3 (omega arith) (omega arith)

-- The address that a descriptor holds, if it is a multiple of the page size below 2^52.
pub address_of-sum :
    (q r : ℕ) → q < 2 ^ 40 → r < 4096 → get_next_level_table_address (q * 4096 + r) ≡ q * 4096
address_of-sum q r hq hr =
    ap (bit_and (q * 4096 + r)) mask
    ∙ bit_and_chunk 12 q r (2 ^ 40 - 1) 0 hr (omega arith)
    ∙ omega (arith, bit_and_mask 40 q, mod-eq_of_lt hq, bit_and-zero r)
  where
    mask : table_address_mask ≡ (2 ^ 40 - 1) * 4096 + 0
    mask = refl
