-- ===== src/Dtb.antt =====
-- The device tree reader of src/dtb.rs: its data, and the functions that read tokens and names.
-- The memory is a function from addresses to bytes, and pointers are addresses. A result of the
-- source, `Result<_, ()>` or `Option`, is `Parsed`, whose `fails` is the error or the `None`.
-- Loops and the recursion run on fuel.
pub mod Search
pub mod Property
pub mod Compatible
pub mod Skip
pub mod Strings
use mini_visor.Base.{
  ℕ, zero, suc, ◌+◌, ◌-◌, ◌*◌, ◌%◌, ◌^◌, Bool, true, false, ◌&&◌, List, [], ◌∷◌, ◌++◌, clear_bits,
  ◌==◌, bytes_at, same_bytes, leb, ltb, if◌then◌else◌,
}

pub data Parsed {ℓ} (A : Type ℓ) : Type ℓ where
  found : A → Parsed A
  fails : Parsed A
  panics : Parsed A
  exhausted : Parsed A

infixl 5 ◌>>=◌
abbrev pub ◌>>=◌ {ℓ κ} : {A : Type ℓ} {B : Type κ} → Parsed A → (A → Parsed B) → Parsed B
found a >>= f = f a
fails >>= f = fails
panics >>= f = panics
exhausted >>= f = exhausted

-- The addresses of the header and of its parts, as `Dtb` finds them.
pub record Dtb : Type 0 where
  pub header : ℕ

abbrev pub dtb_at : ℕ → Dtb
dtb_at header = record { header = header }

pub record DtbNode : Type 0 where
  pub address : ℕ
  pub address_cells : ℕ
  pub size_cells : ℕ

pub record DtbProperty : Type 0 where
  pub address : ℕ
  pub address_cells : ℕ
  pub size_cells : ℕ
  pub len : ℕ

-- The values that the four bytes of a token are compared with.
pub data Token : Type 0 where
  begin_node : Token
  end_node : Token
  prop : Token
  nop : Token
  end : Token
  other : Token

abbrev pub contains : List ℕ → ℕ → Bool
contains [] b = false
contains (x ∷ xs) b = if x == b then true else contains xs b

abbrev pub big_endian : ℕ → List ℕ → ℕ
big_endian acc [] = acc
big_endian acc (b ∷ bytes) = big_endian (acc * 2 ^ 8 + b) bytes

-- `u32::from_be_bytes`
abbrev pub from_be_bytes : List ℕ → ℕ
from_be_bytes bytes = big_endian 0 bytes

unfoldable pub token : List ℕ → Token
token bytes =
    if same_bytes bytes (0 ∷ 0 ∷ 0 ∷ 1 ∷ [])
    then begin_node
    else if same_bytes bytes (0 ∷ 0 ∷ 0 ∷ 2 ∷ [])
    then end_node
    else if same_bytes bytes (0 ∷ 0 ∷ 0 ∷ 3 ∷ [])
    then prop
    else if same_bytes bytes (0 ∷ 0 ∷ 0 ∷ 4 ∷ [])
    then nop
    else if same_bytes bytes (0 ∷ 0 ∷ 0 ∷ 9 ∷ [])
    then end
    else other

-- `((p - 1) & !3) + 4`, where the difference is checked.
unfoldable pub skip_padding : ℕ → Parsed ℕ
skip_padding zero = panics
skip_padding (suc p) = found (clear_bits 64 p 3 + 4)

module _ (memory : ℕ → ℕ) where
  -- A field of the header, which is stored with its high byte first.
  abbrev pub header_field : Dtb → ℕ → ℕ
  header_field d offset = from_be_bytes (bytes_at memory (d.header + offset) 4)

  unfoldable pub new : ℕ → Parsed Dtb
  new dtb_address =
      if header_field (dtb_at dtb_address) 0 == 0xd00dfeed
      then (if ltb 17 (header_field (dtb_at dtb_address) 20)
          then fails
          else found (dtb_at dtb_address))
      else fails

  abbrev pub get_total_size : Dtb → ℕ
  get_total_size d = header_field d 4

  abbrev pub get_struct_offset : Dtb → ℕ
  get_struct_offset d = d.header + header_field d 8

  abbrev pub get_struct_size : Dtb → ℕ
  get_struct_size d = header_field d 36

  abbrev pub get_string_offset : Dtb → ℕ
  get_string_offset d = d.header + header_field d 12

  abbrev pub get_string_size : Dtb → ℕ
  get_string_size d = header_field d 32

  -- Whether the bytes at a pointer are those of a name, and the pointer where that is decided.
  abbrev pub match_bytes : List ℕ → ℕ → Bool × ℕ
  match_bytes [] p = (true, p)
  match_bytes (c ∷ name) p = if c == memory p then match_bytes name (p + 1) else (false, p)

  unfoldable pub compare_name_segment : Dtb → ℕ → List ℕ → List ℕ → Parsed Bool
  compare_name_segment d name_offset name delimiter =
      if leb (get_string_size d) name_offset
      then fails
      else let (matches, p) = match_bytes name (get_string_offset d + name_offset) in
        found (matches && contains (delimiter ++ 0 ∷ []) (memory p))

  -- `while *p != 0 { p += 1 } p += 1`
  unfoldable pub skip_string : ℕ → ℕ → Parsed ℕ
  skip_string zero p = exhausted
  skip_string (suc fuel) p = if memory p == 0 then found (p + 1) else skip_string fuel (p + 1)

  -- All three ways out of the function skip to the end of the string and the padding.
  unfoldable pub compare_string : ℕ → ℕ → List ℕ → List ℕ → Parsed (Bool × ℕ)
  unfolding skip_string
  compare_string fuel pointer name delimiter =
      let (matches, p) = match_bytes name pointer in
      do
        after ← skip_string fuel p
        padded ← skip_padding after
        found (matches && contains (delimiter ++ 0 ∷ []) (memory p), padded)

  unfoldable pub read_node : Dtb → ℕ → Parsed (List ℕ)
  read_node d address =
      if leb (get_struct_offset d + get_struct_size d) address
      then fails
      else found (bytes_at memory address 4)

  unfoldable pub skip_nop : ℕ → Dtb → ℕ → Parsed ℕ
  unfolding read_node
  skip_nop zero d pointer = exhausted
  skip_nop (suc fuel) d pointer =
      let rest = skip_nop fuel d (pointer + 4) in
      do
        bytes ← read_node d pointer
        if same_bytes bytes (0 ∷ 0 ∷ 0 ∷ 4 ∷ []) then rest else found pointer
