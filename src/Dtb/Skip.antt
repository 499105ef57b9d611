-- ===== src/Dtb/Skip.antt =====
-- How the reader of src/dtb.rs moves over padding, NOPs and big-endian numbers.
use mini_visor.Base.{
  bytes_at, same_bytes, ℕ, zero, suc, ◌+◌, ◌-◌, ◌*◌, ◌/◌, ◌%◌, ◌^◌, ◌≤◌, ◌<◌, ◌≡◌, ◌∙◌, ap, Bool,
  true, false, List, [], ◌∷◌, inl, inr, clear_bits, arith, Bool-cases, leb, bit_or, u64, ◌<<<◌,
}
use mathlib.Core.Path.{subst}
use mini_visor.Base.Bits.{bit_and_mask, bit_and-shifted}
use mini_visor.Base.Bits.Fields.{bit_or_fields}
use mini_visor.Dtb.{
  Parsed, found, fails, Dtb, skip_padding, big_endian, from_be_bytes, get_struct_offset,
  get_struct_size, skip_nop,
}
use mini_visor.Dtb.Property.{read_cells}

clear_two : (p : ℕ) → p < 2 ^ 64 → clear_bits 64 p 3 ≡ p / 4 * 4
clear_two p h =
    bit_and-shifted 2 p (2 ^ 62 - 1) ∙ ap (λ (t : ℕ). t * 4) (bit_and_mask 62 (p / 4) ∙ omega arith)

-- The padding behind an address that is not 0 ends at the first multiple of 4 that is not below it.
pub skip_padding_lem :
    (p : ℕ)
    → 1 ≤ p
    → p ≤ 2 ^ 64
    → (q : ℕ) × (skip_padding p ≡ found q) × (q % 4 ≡ 0) × (p ≤ q) × (q < p + 4)
unfolding skip_padding
skip_padding_lem zero h1 h2 = absurd (omega arith)
skip_padding_lem (suc p) h1 h2 = (
  p / 4 * 4 + 4,
  ap (λ (t : ℕ). found (t + 4)) (clear_two p (omega arith)),
  omega arith,
  omega arith,
  omega arith,
)

module _ (memory : ℕ → ℕ) where
  -- The end of the part of the tree that `read_node` reads.
  abbrev pub struct_end : Dtb → ℕ
  struct_end d = get_struct_offset memory d + get_struct_size memory d

  abbrev pub is_nop : ℕ → Bool
  is_nop p = same_bytes (bytes_at memory p 4) (0 ∷ 0 ∷ 0 ∷ 4 ∷ [])

  -- The first place whose token is no NOP, or none before the end of the tree.
  pub data NopSkipped (d : Dtb) (p : ℕ) : Parsed ℕ → Type 0 where
    stops :
        (n : ℕ)
        → ((i : ℕ) → i < n → is_nop (p + 4 * i) ≡ true)
        → (q : ℕ) → q ≡ p + 4 * n
        → is_nop q ≡ false
        → q < struct_end d
        → NopSkipped d p (found q)
    runs_out :
        (n : ℕ)
        → ((i : ℕ) → i < n → is_nop (p + 4 * i) ≡ true)
        → struct_end d ≤ p + 4 * n
        → NopSkipped d p fails

  past_end : (d : Dtb) (p fuel : ℕ) → struct_end d ≤ p → skip_nop memory (suc fuel) d p ≡ fails
  unfolding skip_nop
  past_end d p fuel h = ground arith

  at_token :
      (d : Dtb) (p fuel : ℕ)
      → p < struct_end d
      → is_nop p ≡ false
      → skip_nop memory (suc fuel) d p ≡ found p
  unfolding skip_nop
  at_token d p fuel h e = ground arith

  at_nop :
      (d : Dtb) (p fuel : ℕ)
      → p < struct_end d
      → is_nop p ≡ true
      → skip_nop memory (suc fuel) d p ≡ skip_nop memory fuel d (p + 4)
  unfolding skip_nop
  at_nop d p fuel h e = ground arith

  nops_from :
      (p n : ℕ)
      → is_nop p ≡ true
      → ((i : ℕ) → i < n → is_nop (p + 4 + 4 * i) ≡ true)
      → (i : ℕ) → i < suc n
      → is_nop (p + 4 * i) ≡ true
  nops_from p n h rest zero lt =
      let e : p ≡ p + 4 * 0 = omega arith in subst (λ (t : ℕ). is_nop t ≡ true) e h
  nops_from p n h rest (suc i) lt =
      let e : p + 4 + 4 * i ≡ p + 4 * suc i = omega arith in
      subst (λ (t : ℕ). is_nop t ≡ true) e (rest i (omega arith))

  one_more :
      (d : Dtb) (p : ℕ) (r : Parsed ℕ) → is_nop p ≡ true → NopSkipped d (p + 4) r → NopSkipped d p r
  one_more d p _ h (stops n nops q e other lt) =
      stops (suc n) (nops_from p n h nops) q (omega arith) other lt
  one_more d p _ h (runs_out n nops le) = runs_out (suc n) (nops_from p n h nops) (omega arith)

  -- With fuel for each token up to the end of the tree, `skip_nop` ends: at the first place whose
  -- token is no NOP, or with an error if there is none before the end of the tree.
  pub skip_nop_lem :
      (d : Dtb) (fuel p : ℕ)
      → struct_end d ≤ p + 4 * fuel
      → NopSkipped d p (skip_nop memory (suc fuel) d p)
  skip_nop_lem d zero p h =
      rw (past_end d p zero (omega arith)) (runs_out 0 (λ i lt. absurd (omega arith)) h)
  skip_nop_lem d (suc fuel) p h = elim (Bool-cases (leb (struct_end d) p)) [
    | inl out ↦
        let le : struct_end d ≤ p = ground arith in
        rw (past_end d p (suc fuel) le) (runs_out 0 (λ i lt. absurd (omega arith)) (omega arith))
    | inr inside ↦
        let lt : p < struct_end d = ground arith in
        elim (Bool-cases (is_nop p)) [
          | inl e ↦
              rw (at_nop d p (suc fuel) lt e)
                (one_more d p _ e (skip_nop_lem d fuel (p + 4) (omega arith)))
          | inr e ↦
              rw (at_token d p (suc fuel) lt e)
                (stops 0 (λ i lt. absurd (omega arith)) p (omega arith) e lt)
        ]
  ]

big_endian-mod :
    (bytes : List ℕ) (a b : ℕ)
    → a % 2 ^ 64 ≡ b % 2 ^ 64
    → big_endian a bytes % 2 ^ 64 ≡ big_endian b bytes % 2 ^ 64
big_endian-mod [] a b h = h
big_endian-mod (m ∷ bytes) a b h =
    big_endian-mod bytes (a * 2 ^ 8 + m) (b * 2 ^ 8 + m) (omega arith)

one_byte : (x m : ℕ) → m < 256 → bit_or (u64 (x <<< 8)) m ≡ x * 256 % 2 ^ 64 + m
one_byte x m h =
    let e : u64 (x <<< 8) ≡ x % 2 ^ 56 * 2 ^ 8 = omega arith in
    ap (λ (t : ℕ). bit_or t m) e ∙ bit_or_fields 8 (x % 2 ^ 56) m h ∙ omega arith

read_cells-from :
    (memory : ℕ → ℕ) (n p x : ℕ)
    → ((a : ℕ) → memory a < 256)
    → x < 2 ^ 64
    → read_cells memory n p x ≡ big_endian x (bytes_at memory p n) % 2 ^ 64
unfolding read_cells
read_cells-from memory zero p x small h = omega arith
read_cells-from memory (suc n) p x small h =
    ap (λ (t : ℕ). read_cells memory n (p + 1) t) (one_byte x (memory p) (small p))
    ∙ read_cells-from memory n (p + 1) (x * 256 % 2 ^ 64 + memory p) small (omega (arith, small p))
    ∙ big_endian-mod (bytes_at memory (p + 1) n) (x * 256 % 2 ^ 64 + memory p)
        (x * 2 ^ 8 + memory p) (omega arith)

-- The loop that reads the cells of a register property returns the big-endian number that the bytes
-- hold, cut to 64 bits, whatever the number of bytes.
pub read_cells_lem :
    (memory : ℕ → ℕ) (n p : ℕ)
    → ((a : ℕ) → memory a < 256)
    → read_cells memory n p 0 ≡ from_be_bytes (bytes_at memory p n) % 2 ^ 64
read_cells_lem memory n p small = read_cells-from memory n p 0 small (omega arith)
